-- ===== src/Url.antt =====
-- src/common/utf8_urlencode.c: the escaping of a string for a URL, and its inverse.
pub mod Escape
pub mod Chars
pub mod RoundTrip
pub mod Unescape
