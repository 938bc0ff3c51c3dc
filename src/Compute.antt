-- ===== src/Compute.antt =====
-- image_search/parallel_compute: a server that merges the inverted lists of one part of a query.
pub mod MergeProcessor
