-- ===== src/Cluster/SplitRange/Evacuate.antt =====
-- evacuateOldRegionRanges takes the keys of a range out of the regions, and no other key.
pub mod Pieces
pub mod Loop
pub mod Round
pub mod Range
