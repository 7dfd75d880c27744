-- ===== src/Sudoku/Search.antt =====
-- The search of `grid_solve`: it finds a solution where there is one that the possibilities offer.
use c_fs_subscriber.Base.{
  ◌==◌, le→leb, eq→==, length, get_or, set, get_elem?-eq-get_or, get_or-set_self, get_or-set_ne,
  ◌>>=◌, ℕ, zero, suc, ◌+◌, ◌*◌, ◌≤◌, ◌<◌, ◌≡◌, refl, sym, ◌∙◌, subst, ◌≢◌, inl, inr, true, false,
  Option, some, List, arith, dec_lt, ℕ_discrete,
}
use c_fs_subscriber.Sudoku.{exits, Outcome}
use c_fs_subscriber.Sudoku.Count.{IsGrid}
use c_fs_subscriber.Sudoku.Units.{part_of, part_of-lt}
use c_fs_subscriber.Sudoku.Solution.{IsSolved, Extends, Extends-Clean}
use c_fs_subscriber.Sudoku.{Outcome, returns, exits, try_values}
use c_fs_subscriber.Sudoku.Step.{set-IsGrid, set-Extends, Extends-set, CleanAt, is_dead_end_lem}

-- 810 digits.
pub record IsOffer (possibilities : List ℕ) : Type 0 where
  pub size : length possibilities ≡ 810
  pub digits : (i : ℕ) → get_or possibilities i 0 ≤ 9

-- Where the grid has an empty cell, the value of the solution is among the possibilities.
abbrev pub Offers : List ℕ → List ℕ → List ℕ → Type 0
Offers grid possibilities s =
    (q : ℕ)
    → q < 81
    → get_or grid q 0 ≡ 0
    → get_or possibilities (q * 9 + get_or s q 0) 0 ≡ get_or s q 0

-- A grid that is printed is a solution of `grid`. Where the search returns, there is no solution that the
-- possibilities offer.
abbrev pub Right : List ℕ → List ℕ → Outcome → Type 0
Right grid possibilities returns =
    (s : List ℕ) → IsSolved s → Extends grid s → ¬ Offers grid possibilities s
Right grid possibilities (exits g) = IsSolved g × Extends grid g

set-Offers :
    (grid possibilities s : List ℕ) (p v : ℕ)
    → Offers grid possibilities s
    → 0 < v
    → length grid ≡ 81
    → p < 81
    → Offers (set grid p v) possibilities s
set-Offers grid possibilities s p v o pos size l q m blank = elim (ℕ_discrete p q) [
  | yes same ↦ absurd (
      subst (λ t. get_or (set grid p v) t 0 ≡ 0 → ⊥) same
        (λ h. omega (arith, get_or-set_self grid p v 0 (omega arith))) blank)
  | no other ↦ o q m (sym (get_or-set_ne grid {i = p} {j = q} v 0 other) ∙ blank)
]

module _ (grid possibilities : List ℕ) (p : ℕ) (l : p < 81) (g : IsGrid grid)
    (offer : IsOffer possibilities) (blank : get_or grid p 0 ≡ 0)
    (explore : List ℕ → Option Outcome)
    (explored : (v : ℕ)
      → 0 < v
      → v ≤ 9
      → CleanAt (set grid p v) p
      → (o : Outcome) × (explore (set grid p v) ≡ some o)
        × Right (set grid p v) possibilities o) where
  -- What the loop over the values from `j` on has found out.
  abbrev RightFrom : ℕ → Outcome → Type 0
  RightFrom j returns =
      (s : List ℕ) → IsSolved s → Extends grid s → Offers grid possibilities s → get_or s p 0 < j
  RightFrom j (exits g') = IsSolved g' × Extends grid g'

  abbrev Finds : ℕ → Option Outcome → Type 0
  Finds j r = (o : Outcome) × (r ≡ some o) × RightFrom j o

  abbrev value : ℕ → ℕ
  value j = get_or possibilities (p * 9 + j) 0

  -- A solution with the value `j` in the cell makes `j` a value that is tried.
  passes :
      (j : ℕ) (s : List ℕ)
      → IsSolved s
      → Extends grid s
      → get_or s p 0 ≡ j
      → CleanAt (set grid p j) p
  passes j s solved x e a =
      Extends-Clean (set grid p j) s (set-Extends grid s p j x e g.size l) solved.clean a
        (part_of a p) (part_of-lt a p l)

  offered : (j : ℕ) (s : List ℕ) → Offers grid possibilities s → get_or s p 0 ≡ j → value j ≡ j
  offered j s o e = subst (λ t. get_or possibilities (p * 9 + t) 0 ≡ t) e (o p l blank)

  -- No solution that is offered has the value `j` in the cell.
  abbrev Excluded : ℕ → Type 0
  Excluded j =
      (s : List ℕ) → IsSolved s → Extends grid s → Offers grid possibilities s → get_or s p 0 ≢ j

  skip : (j : ℕ) (o : Outcome) → Excluded j → RightFrom (j + 1) o → RightFrom j o
  skip j returns x r = λ s solved e o. omega (arith, r s solved e o, x s solved e o)
  skip j (exits g') x r = r

  -- a value with which the row, the column and the block stay clean
  try_clean :
      (j : ℕ) (rest : Option Outcome)
      → 0 < value j
      → value j ≤ 9
      → CleanAt (set grid p (value j)) p
      → Finds (j + 1) rest
      → Finds j
          (explore (set grid p (value j)) >>= elim [ returns ↦ rest | exits g' ↦ some (exits g') ])
  try_clean j rest pos small clean (o, e, r) = go (explored (value j) pos small clean)
    where
      go :
          (a : Outcome) × (explore (set grid p (value j)) ≡ some a)
            × Right (set grid p (value j)) possibilities a
          → Finds j (
              explore (set grid p (value j))
              >>= elim [ returns ↦ rest | exits g' ↦ some (exits g') ])
      go (returns, e', none_there) = (
        o,
        rw e' e,
        skip j o
            (λ s solved x os h.
              let at = h ∙ sym (offered j s os h) in
              none_there s solved (set-Extends grid s p (value j) x at g.size l)
                (set-Offers grid possibilities s p (value j) os pos g.size l))
            r,
      )
      go (exits g', e', (solved, x)) =
          (exits g', rw e' refl, (solved, Extends-set grid g' p (value j) blank x))

  try_lem : (n j : ℕ) → j + n ≡ 10 → 0 < j → Finds j (try_values explore grid possibilities p n j)
  unfolding try_values
  try_lem zero j e pos = (returns, refl, λ s solved x o. omega (arith, solved.digits.digits p))
  try_lem (suc n) j e pos =
      let (o, eo, r) = try_lem n (j + 1) (omega arith) (omega arith) in
      let v = value j in
      let read = get_elem?-eq-get_or possibilities (p * 9 + j) 0 (omega (arith, offer.size)) in
      let small = offer.digits (p * 9 + j) in
      elim (dec_lt 0 v) [
        | no z ↦
            let nothing : (v == 0) ≡ true = eq→== v 0 (omega arith) in
            (
              o,
              rw (read, le→leb v 9 small, nothing) eo,
              skip j o (λ s solved x os h. omega (arith, offered j s os h)) r,
            )
        | yes z ↦
            let something : (v == 0) ≡ false = ground arith in
            elim (is_dead_end_lem (set grid p v) p (set-IsGrid grid p v g l small) l) [
              | inr (dead, bad) ↦ (
                o,
                rw (read, le→leb v 9 small, something, dead) eo,
                skip j o (λ s solved x os h. bad (passes v s solved x (h ∙ sym (offered j s os h))))
                    r,
              )
              | inl (alive, clean) ↦
                  let (o', e', r') = try_clean j _ z small clean (o, eo, r) in
                  (o', rw (read, le→leb v 9 small, something, alive) e', r')
            ]
      ]

  RightFrom-Right : (o : Outcome) → RightFrom 1 o → Right grid possibilities o
  RightFrom-Right returns r = λ s solved x os. omega (arith, r s solved x os, solved.filled p l)
  RightFrom-Right (exits g') r = r

  pub try_values_lem :
      (o : Outcome) × (try_values explore grid possibilities p 9 1 ≡ some o)
      × Right grid possibilities o
  try_values_lem = let (o, e, r) = try_lem 9 1 refl (omega arith) in (o, e, RightFrom-Right o r)
