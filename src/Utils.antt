-- ===== src/Utils.antt =====
-- src/catk/utils.hpp: the helpers that the compiler's parts share.
pub mod Escape
