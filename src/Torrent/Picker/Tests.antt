-- ===== src/Torrent/Picker/Tests.antt =====
-- The theorems on the picker at a new picker of seven blocks, and at one with a requested block.
use c_fs_subscriber.Base.{ℕ, ◌+◌, ◌*◌, ◌<◌, ◌≡◌, refl, true, Option, some, [], ◌∷◌, arith}
use c_fs_subscriber.Pg.Bitarray
use c_fs_subscriber.Pg.Bitarray.{Bitarray, test_bit}
use c_fs_subscriber.Torrent.Metainfo.{block_count_for_piece}
use c_fs_subscriber.Torrent.Metainfo.Tests.{sample, sample-IsSound}
use c_fs_subscriber.Torrent.Picker.{
  Picker, init, pick_block, have_all_blocks_for_piece, mark_piece_as_to_download,
}
use c_fs_subscriber.Pg.Bitarray.Bits.{bit}
use c_fs_subscriber.Torrent.Picker.Have.{Answers, have_all_lem}
use c_fs_subscriber.Torrent.Picker.Pick.{IsFirst, IsHave, pick_block_lem}
use c_fs_subscriber.Torrent.Picker.Piece.{within, mark_piece_lem}
use c_fs_subscriber.Torrent.Picker.Valid.{IsValid, Becomes, status, waiting, init_lem}

-- block 2 is requested, blocks 0 and 1 are downloaded
abbrev pub middle : Picker
middle = record {
  to_download = record { store = 0xf8 ∷ 0xff ∷ []; max_index = 6 };
  downloading = record { store = 4 ∷ 0 ∷ []; max_index = 6 };
  downloaded = record { store = 3 ∷ 0 ∷ []; max_index = 6 };
  metainfo = sample;
}

pub middle-IsValid : IsValid middle
middle-IsValid = omega arith

-- the peer has pieces 2 and 3
abbrev pub them : Bitarray
them = record { store = 0x0c ∷ 0 ∷ []; max_index = 3 }

pub them-IsHave : IsHave middle them
them-IsHave = omega arith

init_lem_example :
    (p : Picker) × (init sample ≡ some p)
    × IsValid p
    × (p.metainfo ≡ sample)
    × ((j : ℕ) → j < 7 → status p j ≡ waiting)
init_lem_example = init_lem sample-IsSound (omega arith)

pick_block_lem_example :
    (o : Option ℕ) × (pick_block middle them ≡ some o) × IsFirst middle them 0 o
pick_block_lem_example = pick_block_lem middle-IsValid them-IsHave

pick_block-middle : pick_block middle them ≡ some (some 4)
unfolding pick_block Bitarray.next Bitarray.get test_bit
pick_block-middle = refl

have_all_lem_example :
    Answers
      (have_all_blocks_for_piece middle 0)
      ((k : ℕ) → k < block_count_for_piece sample 0 → bit middle.downloaded (0 * 2 + k) ≡ true)
have_all_lem_example = have_all_lem middle-IsValid 0 (omega arith)

mark_piece_lem_example :
    (p : Picker) × (mark_piece_as_to_download middle 1 ≡ some p)
    × Becomes middle p (within middle (1 * 2) (block_count_for_piece sample 1))
mark_piece_lem_example = mark_piece_lem 1 middle-IsValid (omega arith)
