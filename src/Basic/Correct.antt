-- ===== src/Basic/Correct.antt =====
-- The lines of compile_ast do what the statement means.
pub mod Expr
pub mod Labels
pub mod Stmt
pub mod Program
mod Tests
