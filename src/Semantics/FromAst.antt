-- ===== src/Semantics/FromAst.antt =====
-- src/catk/semantics: the static member functions `from_ast`, which build the graph of expressions
-- from a parse tree. Each takes `rec`, the function `Expr::from_ast` that it calls on the parts of
-- its node; `Expr::from_ast` itself ties the knot on fuel in the child `Expr`.
pub mod Symbol
pub mod Leaves
pub mod Functional
pub mod Context
pub mod Expr
pub mod Depth
pub mod Frame
pub mod Ends
pub mod Termination
pub mod Labels
pub mod ValidCalls
pub mod Valid
