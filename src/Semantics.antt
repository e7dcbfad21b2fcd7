-- ===== src/Semantics.antt =====
-- src/catk/semantics: the graph of expressions that is built from a parse tree.
pub mod PrimaryType
pub mod Op
pub mod PrimaryUnion
pub mod Graph
pub mod FromAst
pub mod Clone
pub mod Printer
pub mod Dump
