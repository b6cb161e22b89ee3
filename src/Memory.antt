-- ===== src/Memory.antt =====
-- src/fuxi/mm/page_allocator.h, page_allocator.cc, memory_resource.h and memory_resource.cc: the page
-- allocators, each on top of another, and the buffer that hands out the bytes of its pages.
pub mod Pages
pub mod NewDelete
pub mod Cached
pub mod Batch
pub mod History
pub mod Counting
pub mod Buffer
