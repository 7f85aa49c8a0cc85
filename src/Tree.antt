-- ===== src/Tree.antt =====
-- update-source-tree.py: the inputs of flake.nix for TheRock's checkout and its submodules.
pub mod Git
pub mod Names
pub mod Graph
pub mod Flake
pub mod Main
