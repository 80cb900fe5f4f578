-- ===== src/Ratio.antt =====
-- ratio/: the ratio of requested memory to requested CPU.
pub mod Record
pub mod Fetcher
pub mod Limits
pub mod Sums
pub mod Grouping
pub mod Rounding
mod Tests
