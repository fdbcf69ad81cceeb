-- ===== src/Mm/Coalesce.antt =====
-- `coalesce` on a free block between its neighbours merges it with the free ones among them.
pub mod Reads
pub mod Merge
pub mod MergeNext
pub mod Widen
pub mod Settle
