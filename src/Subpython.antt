-- ===== src/Subpython.antt =====
-- project05-kweng: the Subpython interpreter's memory.
pub mod Pool
pub mod Refs
pub mod Collect
pub mod Run
pub mod Values
pub mod Lists
pub mod Dicts
pub mod Types
pub mod Eval
