-- ===== src/Torrent/Picker/Pick.antt =====
-- What the two searches over the blocks find.

use c_fs_subscriber.Base.{
  if◌then◌else◌, lt→ltb, Bool-cases, u32, ℕ, zero, suc, ◌+◌, ◌-◌, ◌/◌, ◌≤◌, ◌<◌, ◌≡◌, refl, ◌∙◌,
  inl, inr, Bool, true, false, ◌&&◌, Option, none, some, arith, dec_lt, ℕ_discrete,
}
use c_fs_subscriber.Pg.Bitarray
use c_fs_subscriber.Pg.Bitarray.{Bitarray}
use c_fs_subscriber.Pg.Bitarray.Bits
use c_fs_subscriber.Pg.Bitarray.Bits.{bit, get_lem}
use c_fs_subscriber.Torrent.Metainfo.Blocks.{block_place}
use c_fs_subscriber.Torrent.Picker.{Picker, pick_from, pick_block}
use c_fs_subscriber.Torrent.Picker.Valid.{IsValid}

pub next_lem :
    (b : Bitarray) (i : ℕ)
    → Bits.IsValid b
    → i ≤ b.max_index
    → Bitarray.next b i ≡ some (some (bit b i, i + 1))
unfolding Bitarray.next
next_lem b i v p = ground (arith, get_lem i v p)

pub next_end : (b : Bitarray) (i : ℕ) → b.max_index < i → Bitarray.next b i ≡ some none
unfolding Bitarray.next
next_end b i p = ground arith

-- What the peer is known to have, as a valid bit array over the pieces.
pub record IsHave (p : Picker) (them : Bitarray) : Type 0 where
  pub valid : Bits.IsValid them
  pub max : them.max_index ≡ p.metainfo.pieces_count - 1

-- The block waits, and the peer has its piece.
unfoldable pub candidate : Picker → Bitarray → ℕ → Bool
candidate p them j = bit p.to_download j && bit them (j / p.metainfo.blocks_per_piece)

-- The first candidate from `i` on, if there is one.
abbrev pub IsFirst : Picker → Bitarray → ℕ → Option ℕ → Type 0
IsFirst p them i none = (j : ℕ) → i ≤ j → j < p.metainfo.blocks_count → candidate p them j ≡ false
IsFirst p them i (some b) =
    (b < p.metainfo.blocks_count)
    × (candidate p them b ≡ true)
    × ((j : ℕ) → i ≤ j → j < b → candidate p them j ≡ false)

IsFirst-step :
    (p : Picker) (them : Bitarray) (i : ℕ) (o : Option ℕ)
    → candidate p them i ≡ false
    → IsFirst p them (i + 1) o
    → IsFirst p them i o
IsFirst-step p them i none h f =
    λ j q r. elim (ℕ_discrete i j) [ yes e ↦ rw e at h | no e ↦ f j (omega arith) r ]
IsFirst-step p them i (some b) h f =
    (f.0, f.1, λ j q r. elim (ℕ_discrete i j) [ yes e ↦ rw e at h | no e ↦ f.2 j (omega arith) r ])

module _ {p : Picker} {them : Bitarray} (v : IsValid p) (h : IsHave p them) where
  got :
      (i : ℕ)
      → i < p.metainfo.blocks_count
      → (Bitarray.next p.to_download i ≡ some (some (bit p.to_download i, i + 1)))
        × (u32 (i + 1 - 1) ≡ i)
        × (i / p.metainfo.blocks_per_piece < p.metainfo.pieces_count)
        × (Bitarray.get them (i / p.metainfo.blocks_per_piece)
            ≡ some (bit them (i / p.metainfo.blocks_per_piece)))
  got i q =
      let inside = (block_place v.sound i q).0 in
      (
        next_lem p.to_download i v.valid_to_download (omega (arith, v.max_to_download)),
        omega (arith, v.sound),
        inside,
        get_lem _ h.valid (omega (arith, h.max)),
      )

  pick_from_step :
      (fuel i : ℕ)
      → i < p.metainfo.blocks_count
      → pick_from p them (suc fuel) i
        ≡ (if candidate p them i then some (some i) else pick_from p them fuel (i + 1))
  unfolding pick_from candidate
  pick_from_step fuel i q =
      let (n, w, inside, g) = got i q in
      rw (n, w, lt→ltb i _ q, lt→ltb _ _ inside, g) (ground arith)

  pick_from_lem :
      (fuel i : ℕ)
      → p.metainfo.blocks_count < fuel + i
      → i ≤ p.metainfo.blocks_count
      → (o : Option ℕ) × (pick_from p them fuel i ≡ some o) × IsFirst p them i o
  unfolding pick_from
  pick_from_lem zero i f q = absurd (omega arith)
  pick_from_lem (suc fuel) i f q = elim (dec_lt i p.metainfo.blocks_count) [
    | yes r ↦
        let (o, e, first) = pick_from_lem fuel (i + 1) (omega arith) (omega arith) in
        elim (Bool-cases (candidate p them i)) [
          | inl hit ↦ (
            some i,
            pick_from_step fuel i r ∙ rw hit refl,
            (r, hit, λ j s t. absurd (omega arith)),
          )
          | inr miss ↦ (o, pick_from_step fuel i r ∙ rw miss e, IsFirst-step p them i o miss first)
        ]
    | no r ↦ (
      none,
      rw (next_end p.to_download i (omega (arith, v.max_to_download))) refl,
      λ j s t. absurd (omega arith),
    )
  ]

  -- For a valid picker and a peer whose pieces are a valid bit array over those of the torrent, the
  -- search ends, fails no `assert`, and finds the first block that waits and whose piece the
  -- peer has, or finds none if there is no such block.
  pub pick_block_lem : (o : Option ℕ) × (pick_block p them ≡ some o) × IsFirst p them 0 o
  unfolding pick_block Bitarray.len
  pick_block_lem =
      pick_from_lem (p.to_download.max_index + 1 + 1) 0 (omega (arith, v.max_to_download, v.sound))
        (omega arith)
