-- ===== src/Typing.antt =====
-- src/catk/type: types and type inference.
pub mod OpCast
pub mod Types
pub mod Operators
pub mod Described
pub mod Typer
pub mod Infer
pub mod Operands
pub mod Safe
pub mod Agreement
pub mod Branches
