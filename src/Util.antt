-- ===== src/Util.antt =====
-- kernel/src/util: the bitmap and the string routines.
pub mod Bitmap
pub mod Text
pub mod Strings
