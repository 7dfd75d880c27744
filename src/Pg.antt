-- ===== src/Pg.antt =====
-- The shared utility header pg/pg.h, a module for each of its parts.
pub mod Char
pub mod Pool
pub mod Span
pub mod Str
pub mod Ring
pub mod Bitarray
