-- ===== src/Io.antt =====
-- src/catk/io: the indenting output stream.
pub mod FmtDevice
pub mod Manipulators
