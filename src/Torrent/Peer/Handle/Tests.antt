-- ===== src/Torrent/Peer/Handle/Tests.antt =====
-- The theorems on handling messages and on asking for blocks, at a peer of the sample torrent.
use c_fs_subscriber.Torrent.Picker.{Picker}
use c_fs_subscriber.Torrent.Peer.Handle.Arrive.{Expects, counted, block_arrives}
use c_fs_subscriber.Torrent.Peer.Handle.Lost.{unwritten_block_lost}
use c_fs_subscriber.Pg.Bitarray.Bits.{bit}
use c_fs_subscriber.Torrent.Picker.Valid.{status, Becomes, done}
use c_fs_subscriber.Torrent.Picker.Tests.{middle, middle-IsValid, them, them-IsHave}
use c_fs_subscriber.Torrent.Peer.Handle.Requests.{Asks, request_more_blocks_lem}
use c_fs_subscriber.Torrent.Peer.Handle.Round.{IsActive, IsClear}
use c_fs_subscriber.Base.{
  ◌==◌, if◌then◌else◌, length, replicate, length-replicate, ℕ, zero, suc, ◌+◌, ◌-◌, ◌*◌, ◌/◌, ◌%◌,
  ◌≡◌, refl, inl, true, some, List, [], ◌∷◌, arith,
}
use c_fs_subscriber.Pg.Bitarray.{test_bit}
use c_fs_subscriber.Torrent.Metainfo.{block_count_for_piece, is_last_piece}
use c_fs_subscriber.Torrent.Metainfo.Tests.{sample-IsSound}
use c_fs_subscriber.Torrent.Peer.{Peer, World, no_error, request_more}
use c_fs_subscriber.Torrent.Peer.Handle.{handle_piece, request_more_blocks}
use c_fs_subscriber.Torrent.Peer.Tests.{peer_with, broken}

-- Block 2 is in flight, and the peer has the last two pieces.
abbrev asking : Peer ℕ
asking = record (peer_with [] 1 true) { picker = middle; them_have_pieces = them }

middle-IsClear : IsClear middle
unfolding status bit test_bit
middle-IsClear zero l = λ z. cc
middle-IsClear (suc zero) l = λ z. cc
middle-IsClear (suc (suc zero)) l = λ z. cc
middle-IsClear (suc (suc (suc zero))) l = λ z. cc
middle-IsClear (suc (suc (suc (suc zero)))) l = λ z. cc
middle-IsClear (suc (suc (suc (suc (suc zero))))) l = λ z. cc
middle-IsClear (suc (suc (suc (suc (suc (suc zero)))))) l = λ z. cc
middle-IsClear (suc (suc (suc (suc (suc (suc (suc j))))))) l = absurd (omega arith)

asking-IsActive : IsActive asking
asking-IsActive = record {
  valid = middle-IsValid;
  clear = middle-IsClear;
  same = refl;
  them = them-IsHave;
  pool = record {
    roomy = omega arith;
    small = omega arith;
    chunks = (
      record { number = 4; starts = refl; inside = omega arith },
      (
        record { number = 3; starts = refl; inside = omega arith },
        (
          record { number = 2; starts = refl; inside = omega arith },
          (
            record { number = 1; starts = refl; inside = omega arith },
            (record { number = 0; starts = refl; inside = omega arith }, tt),
          ),
        ),
      ),
    );
    distinct = (
      (λ e. omega arith, (λ e. omega arith, (λ e. omega arith, (λ e. omega arith, tt)))),
      (
        (λ e. omega arith, (λ e. omega arith, (λ e. omega arith, tt))),
        ((λ e. omega arith, (λ e. omega arith, tt)), ((λ e. omega arith, tt), (tt, tt))),
      ),
    );
  };
}

-- every message is sent
abbrev sending : World
sending = record broken { uv_write = λ s bytes. (true, s + 1) }

request_more_blocks_lem_example : Asks sending asking (request_more_blocks sending asking)
request_more_blocks_lem_example =
    request_more_blocks_lem sending asking asking-IsActive refl (omega arith) (omega arith)

unwritten_block_lost_example :
    (s : ℕ) × (handle_piece broken (peer_with [] 1 true) (2 / 2) (16384 * (2 % 2)) (1 ∷ [])
      ≡ some (no_error, request_more, record (peer_with [] 1 true) { world = s }))
unwritten_block_lost_example =
    unwritten_block_lost broken (peer_with [] 1 true) 2 (1 ∷ []) sample-IsSound (omega arith)
      (omega arith) (omega arith) (inl refl)

-- every write writes all of its bytes
abbrev writing : World
writing = record sending {
  seek = λ s offset. (true, s);
  write = λ s bytes. (some (length bytes), s + 1);
}

asking-Expects : Expects asking 2
asking-Expects = record {
  valid = middle-IsValid;
  same = refl;
  inside = omega arith;
  whole = omega arith;
  big = omega arith;
  flying = omega arith;
  asked = unfold status bit test_bit in refl;
  bytes_left = omega arith;
  blocks_left = omega arith;
}

-- a block of sevens
abbrev seven : List ℕ
seven = replicate 16384 7

seven-length : length seven ≡ 16384
seven-length = length-replicate {A = ℕ} 16384 7

block_arrives_example :
    (s : ℕ) × (q : Picker) × (handle_piece writing asking (2 / 2) (16384 * (2 % 2)) seven
      ≡ some (
        no_error,
        request_more,
        record asking {
          world = s;
          picker = q;
          in_flight_requests = 1 - 1;
          download = counted asking.download 16384;
        },
      ))
    × Becomes middle q (λ j. if 2 == j then done else status middle j)
block_arrives_example =
    block_arrives writing asking 2 1 seven asking-Expects seven-length
      (refl, refl, λ e. omega (arith, seven-length))
      (unfold block_count_for_piece is_last_piece in omega arith) (omega arith)
      (inl (unfold status bit test_bit in refl))
