-- ===== src/Containers.antt =====
-- The generic containers of the day lessons.
pub mod LinkedList
pub mod Stack
