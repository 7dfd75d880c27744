-- ===== src/Torrent/Metainfo/Sound.antt =====
-- When the values that `compute` gives a torrent fit together.
use c_fs_subscriber.Base
use c_fs_subscriber.Base.{
  length, sub64, u32, sub32, mul32, ℕ, ◌+◌, ◌-◌, ◌*◌, ◌/◌, ◌%◌, ◌^◌, ◌≤◌, ◌<◌, ◌≡◌, arith,
}
use c_fs_subscriber.Torrent.Metainfo.{Metainfo, ceil_blocks, compute}

-- A piece is a whole number of blocks, and the pieces cover the file, the last one in part. The
-- counts are over the integers; they and the length of a piece are `uint32_t`.
pub record IsSound (m : Metainfo) : Type 0 where
  pub blocks_pos : 0 < m.blocks_per_piece
  pub whole_blocks : m.piece_length ≡ 16384 * m.blocks_per_piece
  pub piece_small : m.piece_length < 2 ^ 32
  pub pieces_pos : 0 < m.pieces_count
  pub pieces_small : m.pieces_count < 2 ^ 32
  pub before_last : (m.pieces_count - 1) * m.piece_length < m.length
  pub all_covered : m.length ≤ (m.pieces_count - 1) * m.piece_length + m.piece_length
  pub last_length : m.last_piece_length ≡ m.length - (m.pieces_count - 1) * m.piece_length
  pub last_blocks : m.last_piece_block_count ≡ ceil_blocks m.last_piece_length
  pub all_blocks : m.blocks_count ≡ ceil_blocks m.length
  pub blocks_small : m.blocks_count < 2 ^ 32

-- What the torrent file must say for that.
pub record IsWellFormed (m : Metainfo) : Type 0 where
  pub piece_pos : 0 < m.piece_length
  pub whole_blocks : m.piece_length % 16384 ≡ 0
  pub piece_small : m.piece_length < 2 ^ 32
  pub hashes : 0 < Base.length m.pieces / 20
  pub hashes_small : Base.length m.pieces / 20 < 2 ^ 32
  pub before_last : (Base.length m.pieces / 20 - 1) * m.piece_length < m.length
  pub all_covered : m.length ≤ (Base.length m.pieces / 20 - 1) * m.piece_length + m.piece_length
  pub blocks_small : ceil_blocks m.length < 2 ^ 32

-- `(a - b % 2^32) % 2^32` over 64-bit subtraction is `a - b`, if that is below 2^32.
wrapped_difference :
    (a b : ℕ) → b ≤ a → a - b < 2 ^ 32 → a < 2 ^ 64 → u32 (sub64 a (b % 2 ^ 32)) ≡ a - b
wrapped_difference a b p q r = omega arith

-- The computed values of a well-formed torrent file fit together, although the offset of the last
-- piece is computed in 32 bits and wraps for a file of 4 GiB or more.
pub compute-IsSound : {m : Metainfo} → IsWellFormed m → IsSound (compute m)
unfolding compute
compute-IsSound {m} w = record {
  blocks_pos = omega arith;
  whole_blocks = omega arith;
  piece_small = w.piece_small;
  pieces_pos = omega arith;
  pieces_small = omega arith;
  before_last = rw pc w.before_last;
  all_covered = rw pc w.all_covered;
  last_length = last;
  last_blocks = omega arith;
  all_blocks = omega arith;
  blocks_small = omega arith;
}
  where
    n : ℕ
    n = Base.length m.pieces / 20

    pc : u32 n ≡ n
    pc = omega arith

    one : sub32 (u32 n) 1 ≡ n - 1
    one = omega arith

    big : m.length < 2 ^ 64
    big = omega arith

    last :
        u32 (sub64 m.length (mul32 (sub32 (u32 n) 1) m.piece_length))
        ≡ m.length - (u32 n - 1) * m.piece_length
    last =
        rw (one, pc)
          (wrapped_difference m.length ((n - 1) * m.piece_length) (omega arith) (omega arith) big)
