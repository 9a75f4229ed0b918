-- ===== src/Jvm.antt =====
-- project01-kweng: the TeenyJVM, class_file.h, read_class.c and jvm.c.
pub mod ClassFile
pub mod Opcode
pub mod Bytes
pub mod Frame
pub mod Execute
pub mod Reader
pub mod Main
pub mod Lookup
mod Tests
mod FileTests
