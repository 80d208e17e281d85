-- ===== src/Util.antt =====
-- src/util: Base64, UTF-8, diffs and the queue between threads.
pub mod Base64
pub mod Utf8
pub mod Diff
pub mod ThreadQueue
