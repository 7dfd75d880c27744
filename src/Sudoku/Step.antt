-- ===== src/Sudoku/Step.antt =====
-- Setting an empty cell, and the check of the row, the column and the block that it lies in.
use c_fs_subscriber.Base.{
  ◌==◌, length, get_or, set, length-set, get_or-set_self, get_or-set_ne, ℕ, zero, suc, ◌+◌, ◌*◌,
  ◌/◌, ◌%◌, ◌≤◌, ◌<◌, bit_and, ◌≡◌, refl, sym, ap, ap₂, ◌∙◌, subst, ◌≢◌, ◌⊎◌, inl, inr, true, false,
  some, List, ◌∷◌, arith, ℕ_discrete,
}
use c_fs_subscriber.Sudoku.{is_dead_end, invalid}
use c_fs_subscriber.Sudoku.Count.{values, IsClean, IsGrid}
use c_fs_subscriber.Sudoku.Verdict.{Verdict, twice, empty, full}
use c_fs_subscriber.Sudoku.Units.{
  Part, row, column, block, place, part_of, part_of-lt, part_of-place, cells, Clean, compute_lem,
}
use c_fs_subscriber.Sudoku.Solution.{Extends}

values-set :
    (position : ℕ → ℕ) (grid : List ℕ) (p v n k : ℕ)
    → k + n ≤ 9
    → ((j : ℕ) → j < 9 → p ≢ position j)
    → values position (set grid p v) n k ≡ values position grid n k
values-set position grid p v zero k l other = refl
values-set position grid p v (suc n) k l other =
    ap₂ ◌∷◌ (get_or-set_ne grid v 0 (other k (omega arith)))
      (values-set position grid p v n (k + 1) (omega arith) other)

-- Setting a cell changes only the row, the column and the block that it lies in.
cells-set :
    (a : Part) (i : ℕ) (grid : List ℕ) (p v : ℕ)
    → i < 9
    → part_of a p ≢ i
    → cells a i (set grid p v) ≡ cells a i grid
cells-set a i grid p v h other =
    values-set (place a i) grid p v 9 0 (omega arith)
      (λ j m e. other (ap (part_of a) e ∙ part_of-place a i j h m))

pub set-IsGrid : (grid : List ℕ) (p v : ℕ) → IsGrid grid → p < 81 → v ≤ 9 → IsGrid (set grid p v)
set-IsGrid grid p v g l small = record {
  size = length-set grid p v ∙ g.size;
  digits = λ q. elim (ℕ_discrete p q) [
    | yes e ↦
        subst (λ t. get_or (set grid p v) t 0 ≤ 9) e
          (omega (arith, get_or-set_self grid p v 0 (omega (arith, g.size))))
    | no e ↦ omega (arith, get_or-set_ne grid {i = p} {j = q} v 0 e, g.digits q)
  ];
}

-- What a cell that is not `p` holds, and what `p` holds.
pub set-Extends :
    (grid s : List ℕ) (p v : ℕ)
    → Extends grid s
    → get_or s p 0 ≡ v
    → length grid ≡ 81
    → p < 81
    → Extends (set grid p v) s
set-Extends grid s p v x e size l q m pos = elim (ℕ_discrete p q) [
  | yes same ↦
      subst (λ t. get_or s t 0 ≡ get_or (set grid p v) t 0) same
        (e ∙ sym (get_or-set_self grid p v 0 (omega arith)))
  | no other ↦
      let k = get_or-set_ne grid {i = p} {j = q} v 0 other in x q m (omega (arith, k)) ∙ sym k
]

pub Extends-set :
    (grid s : List ℕ) (p v : ℕ) → get_or grid p 0 ≡ 0 → Extends (set grid p v) s → Extends grid s
Extends-set grid s p v blank x q m pos = elim (ℕ_discrete p q) [
  | yes same ↦ absurd (subst (λ t. 0 < get_or grid t 0 → ⊥) same (λ h. omega arith) pos)
  | no other ↦ let k = get_or-set_ne grid {i = p} {j = q} v 0 other in x q m (omega (arith, k)) ∙ k
]

-- The row, the column and the block of the cell are clean.
abbrev pub CleanAt : List ℕ → ℕ → Type 0
CleanAt grid p = (a : Part) → IsClean (cells a (part_of a p) grid)

pub set-Clean :
    (grid : List ℕ) (p v : ℕ) → Clean grid → CleanAt (set grid p v) p → Clean (set grid p v)
set-Clean grid p v c here a i h = elim (ℕ_discrete (part_of a p) i) [
  | yes e ↦ subst (λ t. IsClean (cells a t (set grid p v))) e (here a)
  | no e ↦ subst IsClean (sym (cells-set a i grid p v h e)) (c a i h)
]

-- whether a digit stands twice in a row, a column or a block, by its verdict
Verdict-invalid :
    {xs : List ℕ} {r : ℕ}
    → Verdict xs r
    → ((bit_and r invalid == 0) ≡ true) × IsClean xs
      ⊎ ((bit_and r invalid == 0) ≡ false) × ¬ IsClean xs
Verdict-invalid (twice v pos small big e) = inr (rw e refl, λ c. omega (arith, c v pos small))
Verdict-invalid (empty c some_empty e) = inl (rw e refl, c)
Verdict-invalid (full c none_empty e) = inl (rw e refl, c)

-- `is_dead_end` answers whether the row, the column or the block of the cell has a digit twice.
pub is_dead_end_lem :
    (grid : List ℕ) (p : ℕ)
    → IsGrid grid
    → p < 81
    → ((is_dead_end grid p ≡ some false) × CleanAt grid p)
      ⊎ ((is_dead_end grid p ≡ some true) × ¬ CleanAt grid p)
unfolding is_dead_end
is_dead_end_lem grid p g h =
    let (r, er, vr) = compute_lem row (p / 9) grid (part_of-lt row p h) g in
    let (c, ec, vc) = compute_lem column (p % 9) grid (part_of-lt column p h) g in
    let (b, eb, vb) = compute_lem block (p / 9 / 3 * 3 + p % 9 / 3) grid (part_of-lt block p h) g in
    elim (Verdict-invalid vr) [
      | inr (e, bad) ↦ inr (rw (er, e) refl, λ all. bad (all row))
      | inl (e, good_row) ↦ elim (Verdict-invalid vc) [
        | inr (e', bad) ↦ inr (rw (er, e, ec, e') refl, λ all. bad (all column))
        | inl (e', good_column) ↦ elim (Verdict-invalid vb) [
          | inr (e'', bad) ↦ inr (rw (er, e, ec, e', eb, e'') refl, λ all. bad (all block))
          | inl (e'', good_block) ↦
              inl (rw (er, e, ec, e', eb, e'') refl, everywhere good_row good_column good_block)
        ]
      ]
    ]
  where
    everywhere :
        IsClean (cells row (p / 9) grid)
        → IsClean (cells column (p % 9) grid)
        → IsClean (cells block (p / 9 / 3 * 3 + p % 9 / 3) grid)
        → CleanAt grid p
    everywhere x y z row = x
    everywhere x y z column = y
    everywhere x y z block = z
