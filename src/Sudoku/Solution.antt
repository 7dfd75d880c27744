-- ===== src/Sudoku/Solution.antt =====
-- Grids that are filled in, and what setting a cell does.
use c_fs_subscriber.Base.{
  get_or, ℕ, zero, suc, ◌+◌, ◌≤◌, ◌<◌, ◌≡◌, refl, ap, ◌∙◌, some, List, arith,
}
use c_fs_subscriber.Sudoku.{all_validity, finish, exits, valid, unknown}
use c_fs_subscriber.Sudoku.Count.{count, values, IsGrid, Inside}
use c_fs_subscriber.Sudoku.Verdict.{Verdict, twice, empty, full}
use c_fs_subscriber.Sudoku.Units.{
  Part, row, column, block, place, place_bound, compute, cells, Clean, compute_lem,
}

-- No cell before `p` is empty.
abbrev pub IsFilled : ℕ → List ℕ → Type 0
IsFilled n grid = (p : ℕ) → p < n → 0 < get_or grid p 0

pub record IsSolved (grid : List ℕ) : Type 0 where
  pub digits : IsGrid grid
  pub clean : Clean grid
  pub filled : IsFilled 81 grid

-- The solution `s` has the values of the cells of `grid` that are not empty.
abbrev pub Extends : List ℕ → List ℕ → Type 0
Extends grid s = (p : ℕ) → p < 81 → 0 < get_or grid p 0 → get_or s p 0 ≡ get_or grid p 0

pub count-zero :
    (position : ℕ → ℕ) (grid : List ℕ) (n k : ℕ)
    → Inside position
    → k + n ≤ 9
    → IsFilled 81 grid
    → count 0 (values position grid n k) ≡ 0
count-zero position grid zero k i l f = refl
count-zero position grid (suc n) k i l f = ground (
  arith,
  f (position k) (i k (omega arith)),
  count-zero position grid n (k + 1) i (omega arith) f,
)

-- A grid whose cells are those of a solution, or empty, has no digit twice.
count-le :
    (position : ℕ → ℕ) (grid s : List ℕ) (v n k : ℕ)
    → 0 < v
    → Inside position
    → k + n ≤ 9
    → Extends grid s
    → count v (values position grid n k) ≤ count v (values position s n k)
count-le position grid s v zero k pos i l x = omega arith
count-le position grid s v (suc n) k pos i l x = ground (
  arith,
  x (position k) (i k (omega arith)),
  count-le position grid s v n (k + 1) pos i (omega arith) x,
)

pub Extends-Clean : (grid s : List ℕ) → Extends grid s → Clean s → Clean grid
Extends-Clean grid s x c a i h v pos small = omega (
  arith,
  count-le (place a i) grid s v 9 0 pos (place_bound a i h) (omega arith) x,
  c a i h v pos small,
)

compute-valid :
    (a : Part) (i : ℕ) (grid : List ℕ) → i < 9 → IsSolved grid → compute a grid i ≡ some valid
compute-valid a i grid h s =
    let (r, e, v) = compute_lem a i grid h s.digits in e ∙ ap some (is_valid v)
  where
    is_valid : {r : ℕ} → Verdict (cells a i grid) r → r ≡ valid
    is_valid (twice v pos small big e) = absurd (omega (arith, s.clean a i h v pos small))
    is_valid (empty c some_empty e) =
        absurd (
          omega (arith, count-zero (place a i) grid 9 0 (place_bound a i h) (omega arith) s.filled))
    is_valid (full c none_empty e) = e

all_valid :
    (a : Part) (grid : List ℕ) (n i : ℕ)
    → IsSolved grid
    → i + n ≤ 9
    → all_validity (compute a) grid n i valid ≡ some valid
unfolding all_validity
all_valid a grid zero i s l = refl
all_valid a grid (suc n) i s l =
    rw (compute-valid a i grid (omega arith) s) (all_valid a grid n (i + 1) s (omega arith))

all_valid_first :
    (a : Part) (grid : List ℕ)
    → IsSolved grid
    → all_validity (compute a) grid 9 0 unknown ≡ some valid
unfolding all_validity
all_valid_first a grid s =
    rw (compute-valid a 0 grid (omega arith) s) (all_valid a grid 8 1 s (omega arith))

-- The last assertion of the search holds for a solved grid.
pub finish_lem : (grid : List ℕ) → IsSolved grid → finish grid ≡ some (exits grid)
unfolding finish
finish_lem grid s =
    rw
      (
        all_valid_first row grid s,
        all_valid column grid 9 0 s (omega arith),
        all_valid block grid 9 0 s (omega arith),
      )
      refl
