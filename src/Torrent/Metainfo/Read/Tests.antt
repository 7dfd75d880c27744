-- ===== src/Torrent/Metainfo/Read/Tests.antt =====
-- Reading the metadata of a torrent file of 100000 bytes in pieces of two blocks.
use c_fs_subscriber.Base.{replicate, ◌≡◌, refl, some, [], ◌∷◌, arith}
use c_fs_subscriber.Torrent.Bencode.{Parser, integer, string, dictionary}
use c_fs_subscriber.Torrent.Metainfo.Sound.{IsSound}
use c_fs_subscriber.Torrent.Metainfo.Tests.{sample}
use c_fs_subscriber.Torrent.Metainfo.Read.{
  announce_key, info_key, name_key, length_key, piece_length_key, pieces_key, no_error,
  init_metainfo,
}
use c_fs_subscriber.Torrent.Metainfo.Read.Accept.{
  Accepted, init_metainfo-Accepted, init_metainfo-IsSound,
}

-- `d8:announce1:h4:infod6:lengthi100000e4:name1:f12:piece lengthi32768e6:pieces80:...ee`
abbrev torrent : Parser
torrent = record {
  spans =
      []
      ∷ announce_key
      ∷ (b'h' ∷ [])
      ∷ info_key
      ∷ (b'd' ∷ [])
      ∷ length_key
      ∷ (b'1' ∷ b'0' ∷ b'0' ∷ b'0' ∷ b'0' ∷ b'0' ∷ [])
      ∷ name_key
      ∷ (b'f' ∷ [])
      ∷ piece_length_key
      ∷ (b'3' ∷ b'2' ∷ b'7' ∷ b'6' ∷ b'8' ∷ [])
      ∷ pieces_key
      ∷ replicate 80 7
      ∷ [];
  lengths = 4 ∷ 8 ∷ 1 ∷ 4 ∷ 8 ∷ 6 ∷ 6 ∷ 4 ∷ 1 ∷ 12 ∷ 5 ∷ 6 ∷ 80 ∷ [];
  kinds =
      dictionary ∷ string ∷ string ∷ string ∷ dictionary ∷ string ∷ integer ∷ string ∷ string
      ∷ string ∷ integer ∷ string ∷ string ∷ [];
  parent = 18446744073709551615;
}

init_metainfo-torrent : init_metainfo torrent ≡ some (no_error, sample, b'd' ∷ [])
unfolding init_metainfo c_fs_subscriber.Torrent.Metainfo.Read.read_entries
    c_fs_subscriber.Torrent.Metainfo.Read.entry c_fs_subscriber.Torrent.Metainfo.Read.read_entry
    c_fs_subscriber.Torrent.Metainfo.Read.is_key c_fs_subscriber.Pg.Span.eq
    c_fs_subscriber.Torrent.Metainfo.Read.leave_info
    c_fs_subscriber.Torrent.Metainfo.Read.read_length
    c_fs_subscriber.Pg.Span.Signed.parse_i64_decimal c_fs_subscriber.Pg.Span.trim
    c_fs_subscriber.Pg.Char.is_space c_fs_subscriber.Pg.Span.Signed.i64_digits
    c_fs_subscriber.Pg.Char.is_digit c_fs_subscriber.Torrent.Metainfo.Read.read_name
    c_fs_subscriber.Torrent.Metainfo.Read.read_piece_length
    c_fs_subscriber.Torrent.Metainfo.Read.read_pieces c_fs_subscriber.Torrent.Metainfo.Read.finish
    c_fs_subscriber.Torrent.Metainfo.Read.check c_fs_subscriber.Pg.Span.Signed.i64_signed
    c_fs_subscriber.Pg.Span.memcmp_eq c_fs_subscriber.Pg.Span.trim_left
    c_fs_subscriber.Pg.Span.trim_right c_fs_subscriber.Pg.Span.trim_right_from
    c_fs_subscriber.Torrent.Metainfo.compute
init_metainfo-torrent = refl

init_metainfo-Accepted_example : Accepted torrent sample (b'd' ∷ [])
init_metainfo-Accepted_example =
    init_metainfo-Accepted torrent sample (b'd' ∷ []) init_metainfo-torrent

init_metainfo-IsSound_example : IsSound sample
init_metainfo-IsSound_example =
    init_metainfo-IsSound torrent sample (b'd' ∷ []) init_metainfo-torrent refl (omega arith)
      (omega arith) (omega arith) (omega arith)
