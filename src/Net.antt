-- ===== src/Net.antt =====
-- src/net: what the program does with the pages that it fetches.
pub mod Html
