-- ===== src/Osm.antt =====
-- internal/sources/osm: which OpenStreetMap elements become places, what is read from their tags,
-- and the import that streams them to a sink.
pub mod Filter
pub mod Rank
pub mod Tags
pub mod Transform
pub mod Import
mod Tests
