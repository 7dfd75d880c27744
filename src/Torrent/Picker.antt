-- ===== src/Torrent/Picker.antt =====
-- The block picker (`picker_t` of torrent/peer.h): three bit arrays over the blocks of the file. The
-- logger is left out. `none` is a failed `assert`, an access outside of the storage, or a loop that
-- has used up its fuel.
pub mod Valid
pub mod Pick
pub mod Have
pub mod Piece
pub mod Missing
pub mod Tests
use c_fs_subscriber.Base.{
  ltb, leb, if◌then◌else◌, ◌>>=◌, ◌>>◌, assert, u32, add32, sub32, mul32, ℕ, zero, suc, ◌+◌, ◌-◌,
  ◌/◌, Bool, true, false, not, Option, none, some,
}
use c_fs_subscriber.Pg.Bitarray
use c_fs_subscriber.Pg.Bitarray.{Bitarray}
use c_fs_subscriber.Torrent.Metainfo.{Metainfo, block_count_for_piece}

pub record Picker : Type 0 where
  pub to_download : Bitarray
  pub downloading : Bitarray
  pub downloaded : Bitarray
  pub metainfo : Metainfo

unfoldable pub init : Metainfo → Option Picker
init m = do
  assert (ltb 0 m.blocks_count)
  assert (ltb 0 m.pieces_count)
  assert (ltb 0 m.blocks_per_piece)
  assert (ltb 0 m.last_piece_block_count)
  assert (ltb 0 m.last_piece_length)
  let blank = Bitarray.init (m.blocks_count - 1)
  some (record {
    to_download = Bitarray.set_all blank;
    downloading = blank;
    downloaded = blank;
    metainfo = m;
  })

-- the `while` loop of `picker_pick_block`, from index `i`; `some none` is `*found` left at false
unfoldable pub pick_from : Picker → Bitarray → ℕ → ℕ → Option (Option ℕ)
pick_from p them zero i = none
pick_from p them (suc fuel) i = Bitarray.next p.to_download i >>= elim [
  | none ↦ some none
  | some (is_set, i') ↦
      let rest = pick_from p them fuel i' in
      let block = u32 (i' - 1) in
      let piece = block / p.metainfo.blocks_per_piece in
      let test = do
        assert (ltb block p.metainfo.blocks_count)
        assert (ltb piece p.metainfo.pieces_count)
        Bitarray.get them piece
      in if not is_set
        then rest
        else (test >>= λ them_have. if not them_have then rest else some (some block))
]

unfoldable pub pick_block : Picker → Bitarray → Option (Option ℕ)
unfolding pick_from
pick_block p them = pick_from p them (Bitarray.len p.to_download + 1) 0

-- The blocks of a piece, first and last, as the code computes and checks them.
unfoldable pub first_block : Picker → ℕ → Option ℕ
first_block p piece = do
  assert (ltb piece p.metainfo.pieces_count)
  let first = mul32 piece p.metainfo.blocks_per_piece
  assert (ltb first p.metainfo.blocks_count)
  some first

unfoldable pub last_block : Picker → ℕ → ℕ → Option ℕ
last_block p piece first = do
  let last = sub32 (add32 first (block_count_for_piece p.metainfo piece)) 1
  assert (ltb last p.metainfo.blocks_count)
  some last

-- the `while` loop of `picker_have_all_blocks_for_piece`
unfoldable pub have_all_from : Picker → ℕ → ℕ → ℕ → Option Bool
have_all_from p last zero i = none
have_all_from p last (suc fuel) i = Bitarray.next p.downloaded i >>= elim [
  | none ↦ some true
  | some (is_set, i') ↦
      let rest = have_all_from p last fuel i' in
      let block = u32 (i' - 1) in
      let test = if ltb last block then some true else if not is_set then some false else rest in
      assert (ltb block p.metainfo.blocks_count) >> test
]

unfoldable pub have_all_blocks_for_piece : Picker → ℕ → Option Bool
unfolding first_block last_block have_all_from
have_all_blocks_for_piece p piece = do
  first ← first_block p piece
  last ← last_block p piece first
  have_all_from p last (Bitarray.len p.downloaded + 1) first

unfoldable pub mark_block_as_downloading : Picker → ℕ → Option Picker
mark_block_as_downloading p block = do
  assert (ltb block p.metainfo.blocks_count)
  downloading ← Bitarray.set p.downloading block
  to_download ← Bitarray.unset p.to_download block
  some (record p { to_download = to_download; downloading = downloading })

-- one round, and the rounds that are left, of the loop of `picker_mark_piece_as_to_download`
unfoldable pub mark_done : Picker → ℕ → Option Picker
mark_done p block = do
  downloaded ← Bitarray.set p.downloaded block
  to_download ← Bitarray.unset p.to_download block
  downloading ← Bitarray.unset p.downloading block
  some (record p { to_download = to_download; downloading = downloading; downloaded = downloaded })

unfoldable pub mark_all_done : Picker → ℕ → ℕ → Option Picker
unfolding mark_done
mark_all_done p zero block = some p
mark_all_done p (suc n) block = mark_done p block >>= λ p'. mark_all_done p' n (block + 1)

unfoldable pub mark_piece_as_to_download : Picker → ℕ → Option Picker
unfolding first_block last_block mark_all_done
mark_piece_as_to_download p piece = do
  first ← first_block p piece
  last ← last_block p piece first
  assert (leb first last)
  mark_all_done p (last + 1 - first) first

unfoldable pub mark_block_as_downloaded : Picker → ℕ → Option Picker
mark_block_as_downloaded p block = do
  assert (ltb block p.metainfo.blocks_count)
  downloaded ← Bitarray.set p.downloaded block
  downloading ← Bitarray.unset p.downloading block
  some (record p { downloaded = downloaded; downloading = downloading })
