-- ===== src/Page/Split/Parts.antt =====
-- The two blocks that `split` leaves, from a new block that holds copies of all records.
pub mod Rebase
pub mod First
pub mod Second
