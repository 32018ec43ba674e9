-- ===== src/Collections.antt =====
-- ku/src/collections: the bitmaps that the allocators keep their free elements in.
pub mod Bitmap
pub mod DynamicBitmap
pub mod Tests
