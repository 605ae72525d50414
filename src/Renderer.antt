-- ===== src/Renderer.antt =====
-- renderer/: pages are put together from layouts, pages and components, and kept in a cache.
pub mod Name
pub mod Views
pub mod Data
pub mod Render
pub mod Echo
pub mod Keys
pub mod Plain
pub mod Cached
pub mod Added
pub mod Transparent
pub mod Confused
pub mod Merged
pub mod Parsing
