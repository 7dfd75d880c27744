-- ===== src/Torrent/Metainfo/Tests.antt =====
-- The theorems on the blocks of a torrent at a file of 100000 bytes, in pieces of two blocks.

use c_fs_subscriber.Base.{
  replicate, ◌>>=◌, ◌+◌, ◌-◌, ◌*◌, ◌/◌, min, ◌≡◌, refl, some, [], ◌∷◌, arith,
}
use c_fs_subscriber.Torrent.Metainfo.{
  Metainfo, compute, block_for_piece_to_block, block_to_block_for_piece, block_for_piece_length,
}
use c_fs_subscriber.Torrent.Metainfo
use c_fs_subscriber.Torrent.Metainfo.Blocks.{
  blocks_sum, block_round_trip, block_for_piece_length_lem,
}
use c_fs_subscriber.Torrent.Metainfo.Sound.{IsSound, IsWellFormed}

abbrev pub raw : Metainfo
raw = record {
  announce = b'h' ∷ [];
  length = 100000;
  name = b'f' ∷ [];
  pieces = replicate 80 7;
  piece_length = 32768;
  pieces_count = 0;
  blocks_count = 0;
  blocks_per_piece = 0;
  last_piece_length = 0;
  last_piece_block_count = 0;
}

abbrev pub sample : Metainfo
sample = record raw {
  pieces_count = 4;
  blocks_count = 7;
  blocks_per_piece = 2;
  last_piece_length = 1696;
  last_piece_block_count = 1;
}

compute-raw : compute raw ≡ sample
unfolding compute
compute-raw = refl

raw-IsWellFormed : IsWellFormed raw
raw-IsWellFormed = omega arith

pub sample-IsSound : IsSound sample
sample-IsSound = omega arith

blocks_sum_example : 7 ≡ (4 - 1) * 2 + 1
blocks_sum_example = blocks_sum sample-IsSound

block_round_trip_example :
    (block_to_block_for_piece sample (5 / 2) 5 >>= block_for_piece_to_block sample (5 / 2)) ≡ some 5
block_round_trip_example = block_round_trip sample-IsSound 5 (omega arith)

block_for_piece_length_lem_example :
    block_for_piece_length sample 3 0 ≡ some (min 16384 (100000 - 16384 * (3 * 2 + 0)))
block_for_piece_length_lem_example =
    block_for_piece_length_lem sample-IsSound 3 0 (omega arith)
      (unfold Metainfo.block_count_for_piece in omega arith)
