-- ===== src/Torrent/Tracker.antt =====
-- The client of the tracker (torrent/tracker.h): the url that is asked, the bytes of the answer as libcurl
-- hands them over, and the addresses of peers in the answer. The bytes that are loaded as an integer are
-- kept in the order of memory. `none` is an access outside of an array or of a span.
pub mod Peers
pub mod Peers6
pub mod Chunks
pub mod Query
pub mod Url
pub mod Transfer
pub mod Fetch
mod Tests
use c_fs_subscriber.Base.{
  ltb, leb, ◌==◌, if◌then◌else◌, length, get_elem?, take, drop, ◌>>=◌, ◌>>◌, ℕ, zero, suc, ◌+◌, ◌/◌,
  ◌%◌, Bool, true, false, not, ◌&&◌, Option, none, some, List, [], ◌∷◌, ◌++◌,
}
use c_fs_subscriber.Pg.Span
use c_fs_subscriber.Pg.Span.{Span}
use c_fs_subscriber.Pg.Str.{Str, make_reserve, write, text, url_encode}
use c_fs_subscriber.Torrent.Peer.Send.{peer_id}
use c_fs_subscriber.Torrent.Bencode.{Kind, string, dictionary, Parser, Outcome, parse}
use c_fs_subscriber.Torrent.Bencode

pub data TrackerError : Type 0 where
  no_error curl_error bencode_parse invalid_peers : TrackerError

-- `tracker_peer_address_ipv4_t` and `tracker_peer_address_ipv6_t`
pub record Address : Type 0 where
  pub ip : Span
  pub port : Span

abbrev pub max_peers : ℕ
max_peers = 50

abbrev pub peers_key : Span
peers_key = b'p' ∷ b'e' ∷ b'e' ∷ b'r' ∷ b's' ∷ []

abbrev pub peers6_key : Span
peers6_key = b'p' ∷ b'e' ∷ b'e' ∷ b'r' ∷ b's' ∷ b'6' ∷ []

-- `n` bytes from `j` on
unfoldable pub load : Span → ℕ → ℕ → Option Span
load s j n = if leb (j + n) (length s) then some (take n (drop j s)) else none

-- The loop over a value of `peers`, with the rounds that are left: if it returned, and the addresses.
unfoldable pub peers_loop : Span → ℕ → ℕ → List Address → Option (Bool × List Address)
peers_loop s zero j addrs = some (false, addrs)
peers_loop s (suc n) j addrs = do
  ip ← load s j 4
  port ← load s (j + 4) 2
  let addrs' = addrs ++ (record { ip = ip; port = port } ∷ [])
  if leb max_peers (length addrs') then some (true, addrs') else peers_loop s n (j + 6) addrs'

-- The loop over a value of `peers6`, which also advances by 6 bytes.
unfoldable pub peers6_loop : Span → ℕ → ℕ → List Address → Option (Bool × List Address)
peers6_loop s zero j addrs = some (false, addrs)
peers6_loop s (suc n) j addrs = do
  port ← load s (j + 16) 2
  ip ← load s j 16
  let addrs' = addrs ++ (record { ip = ip; port = port } ∷ [])
  if leb max_peers (length addrs') then some (true, addrs') else peers6_loop s n (j + 6) addrs'

-- `*peer_addresses_ipv4` and `*peer_addresses_ipv6`
abbrev pub Addresses : Type 0
Addresses = List Address × List Address

abbrev pub is_string : Kind → Bool
is_string string = true
is_string _ = false

abbrev pub starts_dictionary : List Kind → Bool
starts_dictionary (dictionary ∷ ks) = true
starts_dictionary _ = false

-- One entry of the dictionary: `some err` is a return. The two messages of the tracker are only logged.
unfoldable pub read_entry :
    Kind → Span → Kind → Span → Addresses → Option (Option TrackerError × Addresses)
read_entry key_kind key value_kind value (v4, v6) =
    if is_string key_kind && (Span.eq peers_key key && is_string value_kind)
    then (if not (length value % 6 == 0) then some (some invalid_peers, (v4, v6)) else do
      (done, v4') ← peers_loop value (length value / 6) 0 v4
      some (if done then some no_error else none, (v4', v6)))
    else if is_string key_kind && (Span.eq peers6_key key && is_string value_kind)
    then (if not (length value % 18 == 0) then some (some invalid_peers, (v4, v6)) else do
      (done, v6') ← peers6_loop value (length value / 6) 0 v6
      some (if done then some no_error else none, (v4, v6')))
    else some (none, (v4, v6))

-- the loop over the dictionary, with the rounds that are left and `cur + i`
unfoldable pub read_entries : Parser → ℕ → ℕ → Addresses → Option (TrackerError × Addresses)
read_entries p zero k addrs = some (no_error, addrs)
read_entries p (suc n) k addrs = do
  key_kind ← get_elem? p.kinds k
  key ← get_elem? p.spans k
  value_kind ← get_elem? p.kinds (k + 1)
  value ← get_elem? p.spans (k + 1)
  (returned, addrs') ← read_entry key_kind key value_kind value addrs
  elim returned [ some err ↦ some (err, addrs') | none ↦ read_entries p n (k + 2) addrs' ]

unfoldable pub parse_peer_addresses : Parser → Addresses → Option (TrackerError × Addresses)
parse_peer_addresses p addrs =
    if not (starts_dictionary p.kinds)
    then some (invalid_peers, addrs)
    else do root_len ← get_elem? p.lengths 0; read_entries p ((root_len + 1) / 2) 1 addrs

-- The callback of libcurl: what it returns, and `*response`.
unfoldable pub on_response_chunk : Span → Span → ℕ × Span
on_response_chunk response chunk =
    let new_len = length response + length chunk in
    if ltb 65535 new_len then (0, response) else (new_len, response ++ chunk)
