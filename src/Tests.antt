-- ===== src/Tests.antt =====
-- The theorems at concrete inputs, and runs of the modelled code.
mod Trees
mod Texts
mod Graphs
mod Typed
mod Inferred
mod Driven
mod Dumped
mod Parsed
mod Drawn
