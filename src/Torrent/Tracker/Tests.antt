-- ===== src/Torrent/Tracker/Tests.antt =====
-- The theorems on the answers of the tracker at two addresses.
use c_fs_subscriber.Base.{
  length, replicate, ℕ, ◌≤◌, ◌≡◌, refl, ◌↔◌, none, some, List, [], ◌∷◌, arith,
}
use c_fs_subscriber.Torrent.Bencode.{integer, string, dictionary}
use c_fs_subscriber.Torrent.Tracker.{
  Address, peers_key, no_error, parse_peer_addresses, peers6_loop, on_response_chunk,
}
use c_fs_subscriber.Torrent.Tracker.Peers.{compact, parse_peer_addresses-compact}
use c_fs_subscriber.Torrent.Tracker.Peers6.{peers6_loop_overread}
use c_fs_subscriber.Pg.Str.{Str}
use c_fs_subscriber.Pg.Str.Encode.{encoded}
use c_fs_subscriber.Torrent.Peer.Send.{peer_id}
use c_fs_subscriber.Torrent.Tracker.{on_response_chunk, curl_error}
use c_fs_subscriber.Torrent.Tracker.Query.{Query, until_nul, url_text, build_url_from_query}
use c_fs_subscriber.Torrent.Tracker.Transfer.{Perform, fetched, fetch_peers}
use c_fs_subscriber.Torrent.Tracker.Url.{build_url_from_query_lem}
use c_fs_subscriber.Torrent.Tracker.Fetch.{hand_over, fetch_peers_parts}
use c_fs_subscriber.Torrent.Tracker.Chunks.{on_response_chunk_lem}

abbrev two : List Address
two =
    record { ip = 10 ∷ 0 ∷ 0 ∷ 1 ∷ []; port = 26 ∷ 225 ∷ [] }
    ∷ record { ip = 10 ∷ 0 ∷ 0 ∷ 2 ∷ []; port = 26 ∷ 226 ∷ [] }
    ∷ []

parse_peer_addresses-compact_example :
    parse_peer_addresses
      (record {
        spans = [] ∷ (b'i' ∷ []) ∷ (b'9' ∷ []) ∷ peers_key ∷ compact two ∷ [];
        lengths = 4 ∷ 1 ∷ 1 ∷ 5 ∷ 12 ∷ [];
        kinds = dictionary ∷ string ∷ integer ∷ string ∷ string ∷ [];
        parent = 0;
      })
      ([], [])
    ≡ some (no_error, (two, []))
parse_peer_addresses-compact_example =
    parse_peer_addresses-compact two [] (b'i' ∷ []) (b'9' ∷ []) (1 ∷ 1 ∷ 5 ∷ 12 ∷ []) 0
      ((refl, refl), ((refl, refl), tt))

peers6_loop_overread_example : peers6_loop (replicate 18 7) 3 0 [] ≡ none
peers6_loop_overread_example =
    peers6_loop_overread (replicate 18 7) refl (omega arith) (omega arith)

on_response_chunk_lem_example :
    (((on_response_chunk (1 ∷ []) (2 ∷ 3 ∷ [])).0 ≡ 2) ↔ (◌≡◌ {A = ℕ} 1 0 × (2 ≤ 65535)))
    × (length (on_response_chunk (1 ∷ []) (2 ∷ 3 ∷ [])).1 ≤ 65535)
on_response_chunk_lem_example = on_response_chunk_lem (1 ∷ []) (2 ∷ 3 ∷ []) (omega arith)

abbrev query : Query
query = record {
  url = b'h' ∷ b't' ∷ b't' ∷ b'p' ∷ [];
  uploaded = 0;
  downloaded = 0;
  left = 100000;
  port = 6881;
  info_hash = replicate 20 7;
}

build_url_from_query_lem_example :
    (r : Str) × (build_url_from_query query ≡ some r)
    × (until_nul r.buffer ≡ url_text query (encoded (replicate 20 7)) (encoded peer_id))
build_url_from_query_lem_example = build_url_from_query_lem query (omega arith) refl

-- a transfer of `li1` and `ee`
abbrev two_parts : Perform
two_parts url callback response =
    hand_over callback response ((b'l' ∷ b'i' ∷ b'1' ∷ []) ∷ (b'e' ∷ b'e' ∷ []) ∷ [])

fetch_peers_parts_example : fetch_peers two_parts 9 query ([], []) ≡ fetched curl_error ([], [])
fetch_peers_parts_example =
    fetch_peers_parts two_parts query 9 ([], []) (b'l' ∷ b'i' ∷ b'1' ∷ []) ((b'e' ∷ b'e' ∷ []) ∷ [])
      (λ url callback response. refl) (omega arith) refl (omega arith) (omega arith)
