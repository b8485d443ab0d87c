-- ===== src/Util.antt =====
-- src/tdk/util: the intrusive list that tasks and operations are queued in.
pub mod ListQueue
