-- ===== src/Text.antt =====
-- Python's text operations, as the program uses them, over the native `String`.
pub mod Tables
pub mod Trim
pub mod Ids
pub mod Location
