-- ===== src/Torrent/Tracker/Query.antt =====
-- The url that the tracker is asked with (`tracker_build_url_from_query` of torrent/tracker.h).
use c_fs_subscriber.Base.{
  ltb, ◌==◌, if◌then◌else◌, length, take, ◌>>=◌, ◌>>◌, assert, ℕ, zero, suc, ◌+◌, ◌-◌, ◌/◌, ◌%◌,
  Option, some, [], ◌∷◌, ◌++◌,
}
use c_fs_subscriber.Pg.Span.{Span}
use c_fs_subscriber.Pg.Str.{Str, make_reserve, write, text, url_encode}
use c_fs_subscriber.Torrent.Peer.Send.{peer_id}

pub record Query : Type 0 where
  pub url : Span
  pub uploaded : ℕ
  pub downloaded : ℕ
  pub left : ℕ
  pub port : ℕ
  pub info_hash : Span

-- `%hu` and `%llu`, which have at most 20 digits
unfoldable pub decimal_from : ℕ → ℕ → Span
decimal_from zero n = []
decimal_from (suc f) n =
    let high = decimal_from f (n / 10) in
    if ltb n 10 then (n + b'0') ∷ [] else high ++ ((n % 10 + b'0') ∷ [])

unfoldable pub decimal : ℕ → Span
decimal n = decimal_from 20 n

-- `%s`: the bytes in front of the first 0, or all of them
unfoldable pub until_nul : Span → Span
until_nul [] = []
until_nul (c ∷ s) = let rest = until_nul s in if c == 0 then [] else c ∷ rest

abbrev pub info_hash_text : Span
info_hash_text = b'?' ∷ b'i' ∷ b'n' ∷ b'f' ∷ b'o' ∷ b'_' ∷ b'h' ∷ b'a' ∷ b's' ∷ b'h' ∷ b'=' ∷ []

abbrev pub peer_id_text : Span
peer_id_text = b'&' ∷ b'p' ∷ b'e' ∷ b'e' ∷ b'r' ∷ b'_' ∷ b'i' ∷ b'd' ∷ b'=' ∷ []

abbrev pub port_text : Span
port_text = b'&' ∷ b'p' ∷ b'o' ∷ b'r' ∷ b't' ∷ b'=' ∷ []

abbrev pub uploaded_text : Span
uploaded_text = b'&' ∷ b'u' ∷ b'p' ∷ b'l' ∷ b'o' ∷ b'a' ∷ b'd' ∷ b'e' ∷ b'd' ∷ b'=' ∷ []

abbrev pub downloaded_text : Span
downloaded_text =
    b'&' ∷ b'd' ∷ b'o' ∷ b'w' ∷ b'n' ∷ b'l' ∷ b'o' ∷ b'a' ∷ b'd' ∷ b'e' ∷ b'd' ∷ b'=' ∷ []

abbrev pub left_text : Span
left_text = b'&' ∷ b'l' ∷ b'e' ∷ b'f' ∷ b't' ∷ b'=' ∷ []

abbrev pub compact_text : Span
compact_text = b'&' ∷ b'c' ∷ b'o' ∷ b'm' ∷ b'p' ∷ b'a' ∷ b'c' ∷ b't' ∷ b'=' ∷ b'1' ∷ []

-- what the format string of `snprintf` prints
unfoldable pub url_text : Query → Span → Span → Span
url_text q hash id =
    until_nul q.url
    ++ (info_hash_text
        ++ (until_nul hash
            ++ (peer_id_text
                ++ (until_nul id
                    ++ (port_text
                        ++ (decimal q.port
                            ++ (uploaded_text
                                ++ (decimal q.uploaded
                                    ++ (downloaded_text
                                        ++ (decimal q.downloaded
                                            ++ (left_text
                                                ++ (decimal q.left ++ compact_text))))))))))))

-- `snprintf` writes at most `cap - 1` bytes and a 0. The length of the string stays 0.
unfoldable pub build_url_from_query : Query → Option Str
build_url_from_query q = do
  hash ← url_encode q.info_hash
  id ← url_encode peer_id
  let res = make_reserve 5000
  assert (ltb (length q.url) 4196)
  let printed = url_text q (text hash) (text id)
  buffer ← write res.buffer 0 (take (res.capacity - 1) printed ++ (0 ∷ []))
  some (record res { buffer = buffer })
