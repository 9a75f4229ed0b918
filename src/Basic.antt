-- ===== src/Basic.antt =====
-- project03-kweng: the TeenyBASIC compiler, include/ast.h, src/ast.c, src/parser.c, src/compile.c and
-- src/compiler.c.
pub mod Ast
pub mod Parser
pub mod Compile
pub mod Machine
pub mod Semantics
pub mod Correct
