-- ===== src/GenLlvm.antt =====
-- src/catk/behavior/gen_llvm: the driver that translates typed expressions with an LLVM builder.
pub mod Builder
pub mod BinOps
pub mod Legalize
pub mod Total
pub mod Accepted
pub mod Returns
pub mod Translates
pub mod UnaryOps
pub mod Session
pub mod CTypes
pub mod Types
pub mod Contexts
pub mod Values
pub mod Steady
pub mod Restores
pub mod Again
pub mod Minus
