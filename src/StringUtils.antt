-- ===== src/StringUtils.antt =====
-- sutils/StringUtils.cpp and include/sutils/StringUtils.h, over lists of character codes.
pub mod Text
pub mod Search
pub mod Cut
pub mod Parts
pub mod Fields
pub mod Slices
pub mod Trim
pub mod Numeric
pub mod Blanks
pub mod Cases
