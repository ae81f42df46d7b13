-- ===== src/Chunking.antt =====
-- The chunking of markdown: 05-modulcluster/modul-inhaltsextraktion/src/processors.
pub mod Splitter
pub mod Toc
pub mod Merging
pub mod Headers
