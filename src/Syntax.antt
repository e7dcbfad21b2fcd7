-- ===== src/Syntax.antt =====
-- src/catk/syntax: the grammar, the parse tree, and the functions that take its nodes apart.
pub mod Ast
pub mod Parts
pub mod Pegtl
pub mod Grammar
pub mod Keywords
pub mod Visit
pub mod Dot
