-- ===== src/Torrent/Metainfo.antt =====
-- The metadata of a torrent (`bc_metainfo_t` of torrent/bencode.h): the values computed from it, and
-- the translation between the blocks of the file and the blocks of a piece. Products and differences
-- of `uint32_t` wrap; `ceil((double)n / BC_BLOCK_LENGTH)` is exact, since `n` is below 2^53. `none`
-- is a failed `assert`.
pub mod Sound
pub mod Read
pub mod Blocks
pub mod Tests
use c_fs_subscriber.Base
use c_fs_subscriber.Base.{
  ltb, leb, ◌==◌, if◌then◌else◌, ◌>>=◌, ◌>>◌, assert, sub64, u32, add32, sub32, mul32, ℕ, ◌+◌, ◌/◌,
  Bool, ◌&&◌, Option, some, List,
}

-- A span is the list of its bytes.
pub record Metainfo : Type 0 where
  pub announce : List ℕ
  pub length : ℕ
  pub name : List ℕ
  pub pieces : List ℕ
  pub piece_length : ℕ
  pub pieces_count : ℕ
  pub blocks_count : ℕ
  pub blocks_per_piece : ℕ
  pub last_piece_length : ℕ
  pub last_piece_block_count : ℕ

-- `BC_BLOCK_LENGTH`
abbrev pub block_length : ℕ
block_length = 16384

-- `ceil((double)n / BC_BLOCK_LENGTH)`
abbrev pub ceil_blocks : ℕ → ℕ
ceil_blocks n = (n + 16383) / 16384

-- the end of `bc_parser_init_metainfo`, "Compute QoL values"
unfoldable pub compute : Metainfo → Metainfo
compute m =
    let pieces_count = u32 (Base.length m.pieces / 20) in
    let last_piece_length = u32 (sub64 m.length (mul32 (sub32 pieces_count 1) m.piece_length)) in
    record m {
      pieces_count = pieces_count;
      blocks_per_piece = m.piece_length / block_length;
      last_piece_length = last_piece_length;
      last_piece_block_count = u32 (ceil_blocks last_piece_length);
      blocks_count = u32 (ceil_blocks m.length);
    }

unfoldable pub is_last_piece : Metainfo → ℕ → Bool
is_last_piece m piece = piece == sub32 m.pieces_count 1

unfoldable pub block_count_for_piece : Metainfo → ℕ → ℕ
unfolding is_last_piece
block_count_for_piece m piece =
    if is_last_piece m piece then m.last_piece_block_count else m.blocks_per_piece

unfoldable pub block_for_piece_length : Metainfo → ℕ → ℕ → Option ℕ
unfolding is_last_piece
block_for_piece_length m piece block_for_piece = do
  assert (ltb block_for_piece m.blocks_per_piece)
  if is_last_piece m piece && block_for_piece == sub32 m.last_piece_block_count 1
      then some (
          u32 (
            sub64 m.length
              (add32 (mul32 piece m.piece_length) (mul32 block_for_piece block_length))))
      else some block_length

unfoldable pub piece_length_of : Metainfo → ℕ → ℕ
unfolding is_last_piece
piece_length_of m piece = if is_last_piece m piece then m.last_piece_length else m.piece_length

unfoldable pub block_to_block_for_piece : Metainfo → ℕ → ℕ → Option ℕ
unfolding is_last_piece
block_to_block_for_piece m piece block = do
  assert (ltb piece m.pieces_count)
  assert (ltb block m.blocks_count)
  let block_for_piece = sub32 (mul32 block block_length) (mul32 piece m.piece_length) / block_length
  if is_last_piece m piece && leb m.last_piece_block_count block_for_piece
      then some (sub32 m.last_piece_block_count 1)
      else some block_for_piece

unfoldable pub block_for_piece_to_block : Metainfo → ℕ → ℕ → Option ℕ
unfolding block_count_for_piece
block_for_piece_to_block m piece block_for_piece = do
  assert (ltb piece m.pieces_count)
  assert (ltb block_for_piece (block_count_for_piece m piece))
  let block = add32 (mul32 piece m.blocks_per_piece) block_for_piece
  assert (ltb block m.blocks_count)
  some block
