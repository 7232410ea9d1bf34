-- ===== src/Strings.antt =====
-- Python's `str` and `bytes` as the code uses them: texts are lists of code points, and bytes are
-- lists of numbers below 256.
pub mod Lines
pub mod Replace
pub mod Utf8
