-- ===== src/Utils.antt =====
-- Helpers of pkg/utils, and number formatting.
pub mod Slugify
pub mod Format
