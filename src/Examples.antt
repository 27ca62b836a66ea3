-- ===== src/Examples.antt =====
-- Concrete runs of the theorems on the code of crates/js-x-ray/src/.
mod Trees
mod Graphs
mod Sets
mod Obfuscated
mod Tracers
mod Sources
mod Paths
mod Traversals
mod Texts
mod Inlines
