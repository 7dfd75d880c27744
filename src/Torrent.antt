-- ===== src/Torrent.antt =====
-- The torrent client, a module for each of its headers and parts.
pub mod Metainfo
pub mod Picker
pub mod Tracker
pub mod Bencode
pub mod Peer
