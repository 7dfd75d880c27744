-- ===== src/Sudoku/Count.antt =====
-- What the counters of `compute_row_validity` and the like hold: how often each value occurs.
use c_fs_subscriber.Base.{
  ◌==◌, if◌then◌else◌, length, get_or, set, length-set, get_elem?-eq-get_or, get_or-set_self,
  get_or-set_ne, ℕ, zero, suc, ◌+◌, ◌≤◌, ◌<◌, ◌≡◌, refl, ◌∙◌, subst, some, List, [], ◌∷◌, arith,
  ℕ_discrete,
}
use c_fs_subscriber.Sudoku.{see, see_cells}

abbrev pub count : ℕ → List ℕ → ℕ
count v [] = 0
count v (x ∷ xs) = (if x == v then 1 else 0) + count v xs

-- the values of the cells `position k`, ..., `position (k + n - 1)`
abbrev pub values : (ℕ → ℕ) → List ℕ → ℕ → ℕ → List ℕ
values position grid zero k = []
values position grid (suc n) k = get_or grid (position k) 0 ∷ values position grid n (k + 1)

-- No digit occurs twice.
abbrev pub IsClean : List ℕ → Type 0
IsClean xs = (v : ℕ) → 0 < v → v ≤ 9 → count v xs ≤ 1

-- The ten counters hold what `c` says.
abbrev pub Holds : List ℕ → (ℕ → ℕ) → Type 0
Holds seen c = (length seen ≡ 10) × ((v : ℕ) → v ≤ 9 → get_or seen v 0 ≡ c v)

see-Holds :
    (seen : List ℕ) (c : ℕ → ℕ) (x : ℕ)
    → Holds seen c
    → x ≤ 9
    → c x < 9
    → (seen' : List ℕ) × (see seen x ≡ some seen')
      × Holds seen' (λ v. (if x == v then 1 else 0) + c v)
unfolding see
see-Holds seen c x (l, h) small room =
    let y = get_or seen x 0 + 1 in
    (
      set seen x y,
      ground (arith, h x small),
      (
        length-set seen x y ∙ l,
        λ v m. elim (ℕ_discrete x v) [
          | yes e ↦
              subst (λ t. get_or (set seen x y) t 0 ≡ (if x == t then 1 else 0) + c t) e
                (get_or-set_self seen x y 0 (omega arith) ∙ ground (arith, h x small))
          | no e ↦ get_or-set_ne seen y 0 e ∙ h v m ∙ ground arith
        ],
      ),
    )

count-le : (v : ℕ) (xs : List ℕ) → count v xs ≤ length xs
count-le v [] = omega arith
count-le v (x ∷ xs) = ground (arith, count-le v xs)

-- 81 cells, none of them above 9.
pub record IsGrid (grid : List ℕ) : Type 0 where
  pub size : length grid ≡ 81
  pub digits : (p : ℕ) → get_or grid p 0 ≤ 9

-- The cells of a row, a column or a block are cells of the grid.
abbrev pub Inside : (ℕ → ℕ) → Type 0
Inside position = (k : ℕ) → k < 9 → position k < 81

pub see_cells-Holds :
    (position : ℕ → ℕ) (grid : List ℕ) (n k : ℕ) (seen : List ℕ) (c : ℕ → ℕ)
    → IsGrid grid
    → Inside position
    → k + n ≤ 9
    → ((v : ℕ) → c v ≤ k)
    → Holds seen c
    → (seen' : List ℕ) × (see_cells position grid n k seen ≡ some seen')
      × Holds seen' (λ v. count v (values position grid n k) + c v)
unfolding see_cells
see_cells-Holds position grid zero k seen c g i l b h =
    (seen, refl, (h.0, λ v m. h.1 v m ∙ omega arith))
see_cells-Holds position grid (suc n) k seen c g i l b h =
    let x = get_or grid (position k) 0 in
    let read = get_elem?-eq-get_or grid (position k) 0 (omega (arith, i k, g.size)) in
    let (seen', e, h') = see-Holds seen c x h (g.digits (position k)) (omega (arith, b x)) in
    let (seen'', e', h'') =
      see_cells-Holds position grid n (k + 1) seen' (λ v. (if x == v then 1 else 0) + c v) g i
        (omega arith) (λ v. ground (arith, b v)) h' in
    (seen'', rw (read, e) e', (h''.0, λ v m. h''.1 v m ∙ omega arith))
