-- ===== src/File.antt =====
-- internal/file: the files that a node uploads, reads and caches.
pub mod Fetch
pub mod Keys
pub mod ReadAt
pub mod Open
pub mod Put
pub mod Service
pub mod Upload
pub mod Cache
pub mod Cached
