-- ===== src/Sudoku/Brute.antt =====
-- The solver of sudoku-solver/brute_force.c, which tries all fillings of the empty cells. `none` is a failed
-- `pg_assert`, an access outside of an array, or, in `search`, no fuel left.
pub mod Primes
pub mod Check
pub mod Valid
mod Tests
pub mod Odometer
pub mod Laps
pub mod Merge
pub mod All
use c_fs_subscriber.Base.{
  ltb, leb, ◌==◌, if◌then◌else◌, get_elem?, set, ◌>>=◌, ◌>>◌, assert, mul64, ℕ, zero, suc, ◌+◌, ◌*◌,
  ◌/◌, ◌%◌, Bool, true, false, not, Option, none, some, List, [], ◌∷◌,
}
use c_fs_subscriber.Sudoku.{row_position, column_position, block_position}

abbrev pub primes : List ℕ
primes = 1 ∷ 2 ∷ 3 ∷ 5 ∷ 7 ∷ 11 ∷ 13 ∷ 17 ∷ 19 ∷ 23 ∷ []

abbrev pub filled_id : ℕ
filled_id = 2 * 3 * 5 * 7 * 11 * 13 * 17 * 19 * 23

-- A loop over the nine cells of a row, a column or a block, with the rounds that are left; `position` gives
-- the cell of a round.
unfoldable pub id_of : (ℕ → ℕ) → List ℕ → ℕ → ℕ → ℕ → Option ℕ
id_of position grid zero k id = some id
id_of position grid (suc n) k id = do
  assert (ltb (position k) 81)
  value ← get_elem? grid (position k)
  assert (leb value 9)
  prime ← get_elem? primes value
  assert (ltb 0 prime)
  assert (leb prime 23)
  assert (ltb 0 id)
  let id' = mul64 id prime
  assert (ltb 0 id')
  id_of position grid n (k + 1) id'

unfoldable pub is_full : (ℕ → ℕ) → List ℕ → Option Bool
is_full position grid = id_of position grid 9 0 1 >>= λ id. some (id == filled_id)

unfoldable pub is_row_valid : List ℕ → ℕ → Option Bool
is_row_valid grid row = assert (ltb row 9) >> is_full (row_position row) grid

unfoldable pub is_column_valid : List ℕ → ℕ → Option Bool
is_column_valid grid column = assert (ltb column 9) >> is_full (column_position column) grid

unfoldable pub is_block_valid : List ℕ → ℕ → Option Bool
is_block_valid grid block =
    let position = block / 3 * 3 * 9 + (block % 3) * 3 in
    assert (ltb position 81) >> is_full (block_position block) grid

-- a loop of `is_grid_valid`, over the rows, the columns or the blocks
unfoldable pub all_full : (List ℕ → ℕ → Option Bool) → List ℕ → ℕ → ℕ → Option Bool
all_full is_valid grid zero i = some true
all_full is_valid grid (suc n) i = do
  valid ← is_valid grid i
  if not valid then some false else all_full is_valid grid n (i + 1)

unfoldable pub is_grid_valid : List ℕ → Option Bool
is_grid_valid grid = do
  rows ← all_full is_row_valid grid 9 0
  if not rows then some false else (do
    columns ← all_full is_column_valid grid 9 0
    if not columns then some false else all_full is_block_valid grid 9 0)

unfoldable pub increment : List ℕ → ℕ → Option (List ℕ)
increment solution zero = some solution
increment solution (suc n) = do
  value ← get_elem? solution n
  if value == 0 then increment solution n else (do
    assert (leb value 9)
    if not (value == 9) then some (set solution n (value + 1)) else increment (set solution n 1) n)

-- the loop of `merge_grids`, which looks at each cell once
unfoldable pub merge : List ℕ → List ℕ → List ℕ
merge [] src = []
merge (d ∷ dst) [] = d ∷ dst
merge (d ∷ dst) (x ∷ src) = (if not (x == 0) then x else d) ∷ merge dst src

-- `solution`, from the grid
unfoldable pub first_solution : List ℕ → List ℕ
first_solution [] = []
first_solution (x ∷ grid) = (if x == 0 then 1 else 0) ∷ first_solution grid

-- the loop of `main`: the grid that it prints
unfoldable pub search : ℕ → List ℕ → List ℕ → Option (List ℕ)
search zero grid solution = none
search (suc fuel) grid solution = do
  solution' ← increment solution 81
  let grid' = merge grid solution'
  valid ← is_grid_valid grid'
  if valid then some grid' else search fuel grid' solution'
