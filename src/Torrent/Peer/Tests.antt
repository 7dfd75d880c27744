-- ===== src/Torrent/Peer/Tests.antt =====
-- The theorems on peers, at peers of the sample torrent.

use c_fs_subscriber.Torrent.Peer.Wire.{read_u32, peek_read_u32}
use c_fs_subscriber.Torrent.Peer.Decode.Blocks.{Fits}
use c_fs_subscriber.Torrent.Peer.Decode.Parts.{
  IsReady, request_round_trip, answer_accepted, parts_lem, Same,
}
use c_fs_subscriber.Base.{
  length, replicate, ℕ, ◌+◌, ◌*◌, ◌/◌, ◌%◌, ◌≡◌, refl, ◌≢◌, ◌⊎◌, Bool, true, false, none, some,
  List, [], ◌∷◌, ◌++◌, arith,
}
use c_fs_subscriber.Pg.Bitarray.{Bitarray}
use c_fs_subscriber.Pg.Pool.{Pool, alloc}
use c_fs_subscriber.Pg.Ring.{Ring, pop_front, consume_front, get, load}
use c_fs_subscriber.Pg.Ring.Cycle.{cycle}
use c_fs_subscriber.Pg.Ring.Deque.{contents}
use c_fs_subscriber.Torrent.Metainfo.{Metainfo}
use c_fs_subscriber.Torrent.Metainfo.Tests.{sample, sample-IsSound}
use c_fs_subscriber.Torrent.Peer.{Peer, World, no_error, request, piece, Message, have, is_fatal}
use c_fs_subscriber.Torrent.Peer.Decode.{gives, decode}
use c_fs_subscriber.Torrent.Peer.Decode.Refines.{Agrees}
use c_fs_subscriber.Torrent.Peer.Decode.Trip.{piece_bytes}
use c_fs_subscriber.Torrent.Peer.Decode.Whole.{message_parse_lem}
use c_fs_subscriber.Torrent.Peer.Greet.{handshake_round_trip}
use c_fs_subscriber.Torrent.Peer.Handle.{handle_piece}
use c_fs_subscriber.Torrent.Peer.Handle.Short.{last_block_stops}
use c_fs_subscriber.Torrent.Peer.Parse.{
  message_parse, check_handshaked, parse_message, parse_tag, parse_have, take_have, sized,
}
use c_fs_subscriber.Torrent.Peer.Receive.{on_read, no_fuel}
use c_fs_subscriber.Torrent.Peer.Receive.Ends.{on_read_fuel}
use c_fs_subscriber.Torrent.Peer.Send.{request_bytes, handshake_bytes}
use c_fs_subscriber.Torrent.Peer.Wire.Holds.{Holds}

abbrev no_bits : Bitarray
no_bits = record { store = 0 ∷ 0 ∷ []; max_index = 6 }

abbrev five_chunks : Pool
five_chunks = record {
  buf_len = 81920;
  chunk_size = 16384;
  free_chunks = 65536 ∷ 49152 ∷ 32768 ∷ 16384 ∷ 0 ∷ [];
}

abbrev hash : List ℕ
hash = replicate 20 7

-- a peer whose ring holds `bytes`, and has `room` bytes of space
abbrev pub peer_with : List ℕ → ℕ → Bool → Peer ℕ
peer_with bytes room greeted = record {
  picker = record {
    to_download = no_bits;
    downloading = no_bits;
    downloaded = no_bits;
    metainfo = sample;
  };
  write_ctx_pool = five_chunks;
  read_buf_pool = five_chunks;
  block_pool = five_chunks;
  download = record {
    info_hash = hash;
    downloaded_pieces_count = 0;
    downloaded_blocks_count = 0;
    downloaded_bytes = 0;
    start_ts = 0;
  };
  metainfo = sample;
  them_have_pieces = record { store = 0 ∷ 0 ∷ []; max_index = 3 };
  recv_data = record {
    store = bytes ++ replicate room 0;
    len = length bytes;
    offset = 0;
    cap = length bytes + room;
  };
  me_choked = true;
  me_interested = true;
  them_choked = false;
  them_interested = false;
  handshaked = greeted;
  in_flight_requests = 1;
  idle = false;
  closing = false;
  world = 0;
}

-- nothing works: every call of the system fails
abbrev pub broken : World
broken = record {
  S = ℕ;
  seek = λ s offset. (false, s);
  write = λ s bytes. (none, s);
  read = λ s n. (none, s);
  sha1 = λ bytes. none;
  uv_write = λ s bytes. (false, s + 1);
  uv_read_start = λ s. (false, s);
  uv_hrtime = λ s. s;
}

-- the message that the peer has piece 2, and the beginning of another
abbrev have_bytes : List ℕ
have_bytes = 0 ∷ 0 ∷ 0 ∷ 5 ∷ 4 ∷ 0 ∷ 0 ∷ 0 ∷ 2 ∷ 0 ∷ []

have_peer-Holds : Holds (peer_with have_bytes 6 true).recv_data have_bytes
have_peer-Holds = record { valid = omega arith; bytes = unfold contents cycle in refl }

message_parse_lem_example :
    Agrees
      (peer_with have_bytes 6 true)
      (message_parse (peer_with have_bytes 6 true))
      (decode sample 65536 have_bytes)
    × Fits (peer_with have_bytes 6 true) (message_parse (peer_with have_bytes 6 true))
message_parse_lem_example =
    message_parse_lem (peer_with have_bytes 6 true) have_bytes have_peer-Holds sample-IsSound
      (omega arith) 65536 (record five_chunks { free_chunks = 49152 ∷ 32768 ∷ 16384 ∷ 0 ∷ [] })
      (unfold alloc in refl) refl (omega arith)

-- 98306 bytes, of which the last block has two
abbrev uneven : Metainfo
uneven = record sample { length = 98306; last_piece_length = 2 }

abbrev uneven_peer : List ℕ → ℕ → Peer ℕ
uneven_peer bytes room = record (peer_with bytes room true) { metainfo = uneven }

abbrev asked : List ℕ
asked = request_bytes 3 0 2 ++ 9 ∷ []

abbrev answered : List ℕ
answered = piece_bytes (6 / 2) (16384 * (6 % 2)) (8 ∷ 1 ∷ []) ++ 9 ∷ []

asked-IsReady : IsReady (uneven_peer asked 4) 65536 asked
asked-IsReady =
    unfold request_bytes contents cycle alloc in
    record {
      sound = omega arith;
      done = refl;
      held = record { valid = omega arith; bytes = refl };
      bytes = omega arith;
      free = refl;
    }

request_round_trip_example :
    Agrees
      (uneven_peer asked 4)
      (message_parse (uneven_peer asked 4))
      (gives (request 3 0 2) (9 ∷ []))
request_round_trip_example =
    request_round_trip (uneven_peer asked 4) 65536 3 0 2 (9 ∷ []) (omega arith) (omega arith)
      (omega arith) asked-IsReady

answered-IsReady : IsReady (uneven_peer answered 4) 65536 answered
answered-IsReady =
    unfold piece_bytes contents cycle alloc in
    record {
      sound = omega arith;
      done = refl;
      held = record { valid = omega arith; bytes = refl };
      bytes = omega arith;
      free = refl;
    }

answer_accepted_example :
    Agrees
      (uneven_peer answered 4)
      (message_parse (uneven_peer answered 4))
      (gives (piece (6 / 2) (16384 * (6 % 2)) 65536 (8 ∷ 1 ∷ [])) (9 ∷ []))
answer_accepted_example =
    answer_accepted (uneven_peer answered 4) 65536 6 (8 ∷ 1 ∷ []) (9 ∷ []) (omega arith) refl
      answered-IsReady

-- the message alone
abbrev first : Peer ℕ
first = uneven_peer (0 ∷ 0 ∷ 0 ∷ 5 ∷ 4 ∷ 0 ∷ 0 ∷ 0 ∷ 2 ∷ []) 4

first-IsReady : IsReady first 65536 (0 ∷ 0 ∷ 0 ∷ 5 ∷ 4 ∷ 0 ∷ 0 ∷ 0 ∷ 2 ∷ [])
first-IsReady =
    unfold contents cycle alloc in
    record {
      sound = omega arith;
      done = refl;
      held = record { valid = omega arith; bytes = refl };
      bytes = omega arith;
      free = refl;
    }

abbrev first_read : Peer ℕ
first_read = record first { recv_data = record (first.recv_data) { offset = 9; len = 0 } }

first_returns : message_parse first ≡ some (no_error, have 2, first_read)
unfolding message_parse check_handshaked parse_message parse_tag parse_have take_have sized read_u32
    peek_read_u32 pop_front consume_front get load
first_returns = refl

whole-IsReady : IsReady (uneven_peer have_bytes 4) 65536 have_bytes
whole-IsReady =
    unfold contents cycle alloc in
    record {
      sound = omega arith;
      done = refl;
      held = record { valid = omega arith; bytes = refl };
      bytes = omega arith;
      free = refl;
    }

parts_lem_example :
    (msg' : Message) × (q1 : Peer ℕ) × (message_parse (uneven_peer have_bytes 4)
      ≡ some (no_error, msg', q1))
    × ((is_fatal no_error ≡ true) ⊎ Same (0 ∷ []) (have 2) first_read msg' q1)
parts_lem_example =
    parts_lem first (uneven_peer have_bytes 4) 65536 (0 ∷ 0 ∷ 0 ∷ 5 ∷ 4 ∷ 0 ∷ 0 ∷ 0 ∷ 2 ∷ [])
      (0 ∷ []) no_error (have 2) first_read refl first-IsReady whole-IsReady first_returns
      (λ e. absurd (ground arith))

last_block_stops_example :
    handle_piece broken (peer_with [] 1 true) (6 / 2) (16384 * (6 % 2)) (1 ∷ []) ≡ none
last_block_stops_example =
    last_block_stops broken (peer_with [] 1 true) 6 (1 ∷ []) sample-IsSound refl (omega arith)
      (omega arith)

on_read_fuel_example : on_read broken (peer_with [] 16 true) (some 0) (some have_bytes) ≢ no_fuel
on_read_fuel_example = on_read_fuel broken (peer_with [] 16 true) (some 0) (some have_bytes)

abbrev greeting : List ℕ
greeting = handshake_bytes hash ++ 0 ∷ []

greeting-Holds : Holds (peer_with greeting 3 false).recv_data greeting
greeting-Holds = record {
  valid = unfold handshake_bytes in omega arith;
  bytes = unfold contents cycle handshake_bytes in refl;
}

handshake_round_trip_example :
    (r : Ring) × (check_handshaked (peer_with greeting 3 false)
      ≡ some (no_error, record (peer_with greeting 3 false) { recv_data = r; handshaked = true }))
    × Holds r (0 ∷ [])
handshake_round_trip_example =
    handshake_round_trip (peer_with greeting 3 false) (0 ∷ []) refl greeting-Holds refl
