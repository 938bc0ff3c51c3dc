-- ===== src/Search.antt =====
-- The search core, image_search/bof_core: one module for each of its source files.
pub mod Hamming
pub mod Serializer
pub mod Hints
pub mod Index
pub mod Searcher
pub mod CommonSearch
pub mod Ranking
pub mod Bucket
pub mod Wgc
