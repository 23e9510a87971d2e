-- ===== src/Unicode.antt =====
-- src/boot/unicode.cpp: UTF-8 and UTF-16 to code points and back. A string is the list of its bytes,
-- or of its 16-bit words; reading at the end of a string gives 0, as for std::string.
pub mod Encode
pub mod Decode
pub mod Bytes
pub mod RoundTrip
pub mod Grammar
pub mod Strict
pub mod Utf16
mod Tests
