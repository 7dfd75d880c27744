-- ===== src/Torrent/Picker/Piece.antt =====
-- `picker_mark_piece_as_to_download`, which loops over the blocks of a piece.
use c_fs_subscriber.Base.{
  ltb, leb, ◌==◌, if◌then◌else◌, le→leb, ℕ, zero, suc, ◌+◌, ◌-◌, ◌*◌, ◌≤◌, ◌<◌, ◌≡◌, refl, ap, ◌∙◌,
  ◌&&◌, some, arith,
}
use c_fs_subscriber.Pg.Bitarray.Bits.{set-Updates, unset-Updates}
use c_fs_subscriber.Torrent.Metainfo.{block_count_for_piece}
use c_fs_subscriber.Torrent.Picker.{Picker, mark_done, mark_all_done, mark_piece_as_to_download}
use c_fs_subscriber.Torrent.Picker.Have.{bounds_lem, count_pos, last_in_file}
use c_fs_subscriber.Torrent.Picker.Valid.{IsValid, Becomes, Status, done, status}

mark_done_lem :
    {p : Picker} (block : ℕ)
    → IsValid p
    → block < p.metainfo.blocks_count
    → (p' : Picker) × (mark_done p block ≡ some p')
      × Becomes p p' (λ j. if block == j then done else status p j)
unfolding mark_done status
mark_done_lem {p} block v q =
    let (d, e, u) = set-Updates block v.valid_downloaded (omega (arith, v.max_downloaded)) in
    let (t, f, n) = unset-Updates block v.valid_to_download (omega (arith, v.max_to_download)) in
    let (r, g, m) = unset-Updates block v.valid_downloading (omega (arith, v.max_downloading)) in
    (
      record p { to_download = t; downloading = r; downloaded = d },
      rw (e, f, g) refl,
      record {
        valid = record {
          sound = v.sound;
          valid_to_download = n.valid;
          valid_downloading = m.valid;
          valid_downloaded = u.valid;
          max_to_download = n.same_max ∙ v.max_to_download;
          max_downloading = m.same_max ∙ v.max_downloading;
          max_downloaded = u.same_max ∙ v.max_downloaded;
        };
        same = refl;
        statuses = λ j s. ground (arith, n.bits j, u.bits j, m.bits j);
      },
    )

-- The status of a block when those from `i` to `i + n` are done.
abbrev pub within : Picker → ℕ → ℕ → ℕ → Status
within p i n j = if leb i j && ltb j (i + n) then done else status p j

mark_all_done_lem :
    (n : ℕ) {p : Picker} (i : ℕ)
    → IsValid p
    → i + n ≤ p.metainfo.blocks_count
    → (p' : Picker) × (mark_all_done p n i ≡ some p') × Becomes p p' (within p i n)
unfolding mark_all_done
mark_all_done_lem zero {p} i v q =
    (p, refl, record { valid = v; same = refl; statuses = λ j r. ground arith })
mark_all_done_lem (suc n) {p} i v q =
    let (p', e, b) = mark_done_lem i v (omega arith) in
    let (p'', f, c) = mark_all_done_lem n {p = p'} (i + 1) b.valid (rw b.same (omega arith)) in
    (
      p'',
      rw e f,
      record {
        valid = c.valid;
        same = c.same ∙ b.same;
        statuses = λ j r. ground (arith, c.statuses j (rw b.same r), b.statuses j r);
      },
    )

mark_piece_rounds :
    {p : Picker} (piece : ℕ)
    → IsValid p
    → piece < p.metainfo.pieces_count
    → mark_piece_as_to_download p piece
      ≡ mark_all_done p
          (block_count_for_piece p.metainfo piece)
          (piece * p.metainfo.blocks_per_piece)
unfolding mark_piece_as_to_download
mark_piece_rounds {p} piece v q =
    let f = piece * p.metainfo.blocks_per_piece in
    let c = block_count_for_piece p.metainfo piece in
    let (e, g) = bounds_lem v piece q in
    let pos = count_pos v piece q in
    let rounds : f + (c - 1) + 1 - f ≡ c = omega arith in
    rw (e, g, le→leb f (f + (c - 1)) (omega arith)) (ap (λ n. mark_all_done p n f) rounds)

-- For a valid picker and a piece of the torrent no `assert` fails, the picker stays valid, every block of the piece becomes a downloaded one,
-- whatever it was, and no other block changes.
pub mark_piece_lem :
    {p : Picker} (piece : ℕ)
    → IsValid p
    → piece < p.metainfo.pieces_count
    → (p' : Picker) × (mark_piece_as_to_download p piece ≡ some p')
      × Becomes p p'
          (within p (piece * p.metainfo.blocks_per_piece) (block_count_for_piece p.metainfo piece))
mark_piece_lem {p} piece v q =
    let f = piece * p.metainfo.blocks_per_piece in
    let c = block_count_for_piece p.metainfo piece in
    let fits : f + c ≤ p.metainfo.blocks_count =
      omega (arith, last_in_file v piece q, count_pos v piece q) in
    let (p', d, b) = mark_all_done_lem c f v fits in (p', mark_piece_rounds piece v q ∙ d, b)
