-- ===== src/Torrent/Picker/Missing.antt =====
-- A piece with a block that is not there yet.
use native.Mathlib.Nat.{div-add-mod'}
use c_fs_subscriber.Base.{
  ◌==◌, if◌then◌else◌, Bool-cases, ℕ, ◌+◌, ◌*◌, ◌/◌, ◌%◌, ◌<◌, ◌≡◌, sym, ap, ◌∙◌, subst, ◌≢◌, ◌⊎◌,
  inl, inr, false, some, arith,
}
use c_fs_subscriber.Pg.Bitarray.Bits.{bit}
use c_fs_subscriber.Torrent.Metainfo.{Metainfo, block_count_for_piece}
use c_fs_subscriber.Torrent.Metainfo.Blocks.{block_place, block_in_file}
use c_fs_subscriber.Torrent.Metainfo.Sound.{IsSound}
use c_fs_subscriber.Torrent.Picker.{Picker, have_all_blocks_for_piece}
use c_fs_subscriber.Torrent.Picker.Have.{have_all_lem}
use c_fs_subscriber.Torrent.Picker.Valid.{IsValid, Becomes, status, waiting, requested, done}

-- The block is not in the file yet, and stands in one array.
abbrev pub Misses : Picker → ℕ → Type 0
Misses q j = (status q j ≡ waiting) ⊎ (status q j ≡ requested)

Misses-bit : (q : Picker) (j : ℕ) → Misses q j → bit q.downloaded j ≡ false
unfolding status
Misses-bit q j m = ground arith

-- A piece with a missing block is not complete.
have_all-Misses :
    {q : Picker}
    → IsValid q
    → (piece k : ℕ) → piece < q.metainfo.pieces_count
    → k < block_count_for_piece q.metainfo piece
    → Misses q (piece * q.metainfo.blocks_per_piece + k)
    → have_all_blocks_for_piece q piece ≡ some false
have_all-Misses {q} v piece k i l m =
    let (r, e, iff) = have_all_lem v piece i in
    elim (Bool-cases r) [
      | inl all ↦
          absurd (
            ground (arith, iff.0 all k l, Misses-bit q (piece * q.metainfo.blocks_per_piece + k) m))
      | inr part ↦ e ∙ ap some part
    ]

Becomes-Misses :
    {p q : Picker} {block : ℕ}
    → Becomes p q (λ j. if block == j then done else status p j)
    → (j : ℕ) → block ≢ j
    → j < p.metainfo.blocks_count
    → Misses p j
    → Misses q j
Becomes-Misses h j other l m = ground (arith, h.statuses j l)

-- A piece is not complete after one block of it has arrived, if it misses another.
pub still-Misses :
    {p q : Picker} {m : Metainfo} (block k : ℕ)
    → Becomes p q (λ j. if block == j then done else status p j)
    → p.metainfo ≡ m
    → IsSound m
    → block < m.blocks_count
    → k < block_count_for_piece m (block / m.blocks_per_piece)
    → k ≢ block % m.blocks_per_piece
    → Misses p (block / m.blocks_per_piece * m.blocks_per_piece + k)
    → have_all_blocks_for_piece q (block / m.blocks_per_piece) ≡ some false
still-Misses {p} {q} {m} block k h same s i l other missing =
    let b = m.blocks_per_piece in
    let piece = block / b in
    let (inside, _) = block_place s block i in
    let meta : m ≡ q.metainfo = sym (h.same ∙ same) in
    let place : block / b * b + block % b ≡ block = div-add-mod' block b in
    let apart : block ≢ piece * b + k = λ e. other (omega arith) in
    let there : piece * b + k < p.metainfo.blocks_count =
      subst (λ (t : Metainfo). piece * b + k < t.blocks_count) (sym same)
        (block_in_file s piece k inside l) in
    have_all-Misses h.valid piece k (subst (λ (t : Metainfo). piece < t.pieces_count) meta inside)
      (subst (λ (t : Metainfo). k < block_count_for_piece t piece) meta l)
      (subst (λ (t : Metainfo). Misses q (piece * t.blocks_per_piece + k)) meta
        (Becomes-Misses h (piece * b + k) apart there missing))
