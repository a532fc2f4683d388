-- ===== src/Containers.antt =====
-- The ordered containers of the C++ standard library that the server keeps its state in.
pub mod Map
pub mod OrderedSet
