-- ===== src/Torrent/Picker/Have.antt =====
-- `picker_have_all_blocks_for_piece`: whether every block of a piece is downloaded.
use c_fs_subscriber.Base.{
  ltb, if◌then◌else◌, lt→ltb, le→ltb, Bool-cases, set, u32, ℕ, zero, suc, ◌+◌, ◌-◌, ◌*◌, ◌≤◌, ◌<◌,
  ◌≡◌, refl, ◌∙◌, ◌↔◌, inl, inr, Bool, true, false, Option, some, arith, dec_lt, ℕ_discrete,
}
use c_fs_subscriber.Pg.Bitarray
use c_fs_subscriber.Pg.Bitarray.Bits.{bit}
use c_fs_subscriber.Torrent.Metainfo.{block_count_for_piece}
use c_fs_subscriber.Torrent.Metainfo.Blocks.{block_in_file, block_count_lem, last_blocks_bounds}
use c_fs_subscriber.Torrent.Picker.{
  Picker, first_block, last_block, have_all_from, have_all_blocks_for_piece,
}
use c_fs_subscriber.Torrent.Picker.Pick.{next_lem, next_end}
use c_fs_subscriber.Torrent.Picker.Valid.{IsValid}

-- The blocks from `i` up to `last` are downloaded.
abbrev pub AllDone : Picker → ℕ → ℕ → Type 0
AllDone p i last = (j : ℕ) → i ≤ j → j ≤ last → bit p.downloaded j ≡ true

-- A search that ends, and answers `true` exactly when `P` holds.
abbrev pub Answers : Option Bool → Type 0 → Type 0
Answers o P = (r : Bool) × (o ≡ some r) × ((r ≡ true) ↔ P)

AllDone-step :
    (p : Picker) (i last : ℕ)
    → bit p.downloaded i ≡ true
    → AllDone p (i + 1) last
    → AllDone p i last
AllDone-step p i last h all j q r = elim (ℕ_discrete i j) [
  | yes e ↦ rw e at h
  | no e ↦ all j (omega arith) r
]

module _ {p : Picker} (v : IsValid p) (last : ℕ) (l : last < p.metainfo.blocks_count) where
  have_all_step :
      (fuel i : ℕ)
      → i < p.metainfo.blocks_count
      → have_all_from p last (suc fuel) i ≡ (
          if ltb last i
          then some true
          else if bit p.downloaded i
          then have_all_from p last fuel (i + 1)
          else some false)
  unfolding have_all_from
  have_all_step fuel i q =
      let n = next_lem p.downloaded i v.valid_downloaded (omega (arith, v.max_downloaded)) in
      let w : u32 (i + 1 - 1) ≡ i = omega (arith, v.sound) in rw (n, w, lt→ltb i _ q) (ground arith)

  have_all_from_lem :
      (fuel i : ℕ)
      → p.metainfo.blocks_count < fuel + i
      → i ≤ p.metainfo.blocks_count
      → Answers (have_all_from p last fuel i) (AllDone p i last)
  have_all_from_lem zero i f q = absurd (omega arith)
  have_all_from_lem (suc fuel) i f q = elim (dec_lt i p.metainfo.blocks_count) [
    | no r ↦ (
      true,
      unfold have_all_from in rw (next_end p.downloaded i (omega (arith, v.max_downloaded))) refl,
      (λ _ j s t. absurd (omega arith), λ _. refl),
    )
    | yes r ↦ elim (dec_lt last i) [
      | yes past ↦ (
        true,
        have_all_step fuel i r ∙ rw (lt→ltb last i past) refl,
        (λ _ j s t. absurd (omega arith), λ _. refl),
      )
      | no here ↦
          let shut = le→ltb last i (omega arith) in
          elim (Bool-cases (bit p.downloaded i)) [
            | inl set ↦
                let (x, e, h) = have_all_from_lem fuel (i + 1) (omega arith) (omega arith) in
                (
                  x,
                  have_all_step fuel i r ∙ rw (shut, set) e,
                  (
                    λ t. AllDone-step p i last set (h.0 t),
                    λ all. h.1 (λ j s t. all j (omega arith) t),
                  ),
                )
            | inr clear ↦ (
              false,
              have_all_step fuel i r ∙ rw (shut, clear) refl,
              (λ t. cc, λ all. cc (all i (omega arith) (omega arith))),
            )
          ]
    ]
  ]

module _ {p : Picker} (v : IsValid p) (piece : ℕ) (q : piece < p.metainfo.pieces_count) where
  abbrev start : ℕ
  start = piece * p.metainfo.blocks_per_piece

  abbrev count : ℕ
  count = block_count_for_piece p.metainfo piece

  -- A piece has a block.
  pub count_pos : 0 < count
  count_pos = elim (block_count_lem v.sound piece q) [
    | inl (_, _, c, _) ↦ omega (arith, last_blocks_bounds v.sound)
    | inr (_, _, c, _) ↦ omega (arith, v.sound)
  ]

  pub last_in_file : start + (count - 1) < p.metainfo.blocks_count
  last_in_file = block_in_file v.sound piece (count - 1) q (omega (arith, count_pos))

  -- Neither computation of the bounds of a piece wraps, and no `assert` fails.
  pub bounds_lem :
      (first_block p piece ≡ some start) × (last_block p piece start ≡ some (start + (count - 1)))
  unfolding first_block last_block
  bounds_lem =
      (ground (arith, last_in_file, v.sound), ground (arith, last_in_file, count_pos, v.sound))

-- For a valid picker and a piece of the torrent the search ends, fails no `assert`, and answers whether every block of
-- the piece is downloaded.
pub have_all_lem :
    {p : Picker}
    → IsValid p
    → (piece : ℕ) → piece < p.metainfo.pieces_count
    → Answers (have_all_blocks_for_piece p piece) (
        (k : ℕ)
        → k < block_count_for_piece p.metainfo piece
        → bit p.downloaded (piece * p.metainfo.blocks_per_piece + k) ≡ true)
unfolding have_all_blocks_for_piece Bitarray.len
have_all_lem {p} v piece q =
    let c = count v piece q in
    let f = start v piece q in
    let (e, g) = bounds_lem v piece q in
    let inside = last_in_file v piece q in
    let pos = count_pos v piece q in
    let (x, d, h) =
      have_all_from_lem v (f + (c - 1)) inside (p.downloaded.max_index + 1 + 1) f
        (omega (arith, v.max_downloaded, v.sound)) (omega arith) in
    (
      x,
      rw (e, g) d,
      (
        λ t k r. h.0 t (f + k) (omega arith) (omega arith),
        λ all.
            h.1 (λ j s t.
              let z : f + (j - f) ≡ j = omega arith in rw z at (all (j - f) (omega arith))),
      ),
    )
