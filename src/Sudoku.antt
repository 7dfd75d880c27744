-- ===== src/Sudoku.antt =====
-- The solver of sudoku-solver/constraints.c. A grid is the list of its 81 cells, row by row, with 0
-- for an empty one. `none` is a failed `pg_assert`, an access outside of an array, or, in
-- `grid_solve`, no fuel left.
mod Tests
pub mod Count
pub mod Units
pub mod Main
pub mod Brute
pub mod Pass
pub mod First
pub mod Solve
pub mod Search
pub mod Step
pub mod Solution
pub mod Verdict
use c_fs_subscriber.Base.{
  ltb, leb, ◌==◌, if◌then◌else◌, get_elem?, get_or, set, replicate, ◌>>=◌, ◌>>◌, assert, ℕ, zero,
  suc, ◌+◌, ◌-◌, ◌*◌, ◌/◌, ◌%◌, bit_and, bit_or, Bool, true, false, not, ◌&&◌, ◌||◌, Option, none,
  some, List, [], ◌∷◌,
}

-- `validity_t`, whose values are put together by `|`
abbrev pub unknown : ℕ
unknown = 0

abbrev pub invalid : ℕ
invalid = 1

abbrev pub valid : ℕ
valid = 2

abbrev pub incomplete : ℕ
incomplete = 4

-- `seen[value]++`, and the assertions around it
unfoldable pub see : List ℕ → ℕ → Option (List ℕ)
see seen value = do
  assert (leb value 9)
  let n = (get_or seen value 0 + 1) % 256
  assert (leb n 9)
  some (set seen value n)

-- The loop over the cells of a row, a column or a block: `position` gives the cell of a round, `n` are
-- the rounds that are left.
unfoldable pub see_cells : (ℕ → ℕ) → List ℕ → ℕ → ℕ → List ℕ → Option (List ℕ)
unfolding see
see_cells position grid zero k seen = some seen
see_cells position grid (suc n) k seen = do
  value ← get_elem? grid (position k)
  seen' ← see seen value
  see_cells position grid n (k + 1) seen'

-- whether one of the values `i`, ..., `i + n - 1` was seen more than once
unfoldable pub seen_twice : List ℕ → ℕ → ℕ → Bool
seen_twice seen zero i = false
seen_twice seen (suc n) i = ltb 1 (get_or seen i 0) || seen_twice seen n (i + 1)

-- the end of `compute_row_validity`, `compute_block_validity` and `compute_column_validity`
unfoldable pub judge : List ℕ → Option ℕ
unfolding seen_twice
judge seen =
    if seen_twice seen 9 1
    then some invalid
    else if ltb 0 (get_or seen 0 0)
    then some incomplete
    else (assert (
          get_or seen 0 0 == 0
          && get_or seen 1 0 == 1
          && get_or seen 2 0 == 1
          && get_or seen 3 0 == 1
          && get_or seen 4 0 == 1
          && get_or seen 5 0 == 1
          && get_or seen 6 0 == 1
          && get_or seen 7 0 == 1
          && get_or seen 8 0 == 1)
        >> some valid)

unfoldable pub validity_of : (ℕ → ℕ) → List ℕ → Option ℕ
unfolding see_cells judge
validity_of position grid = see_cells position grid 9 0 (replicate 10 0) >>= judge

unfoldable pub row_position : ℕ → ℕ → ℕ
row_position row k = row * 9 + k

unfoldable pub column_position : ℕ → ℕ → ℕ
column_position column k = column + 9 * k

-- `start_i` and `start_j` are the quotient and the remainder by 9 of the first cell; the two loops over
-- `i` and `j` are one over `k`, which is `3 * i + j`
unfoldable pub block_position : ℕ → ℕ → ℕ
block_position block k =
    let position = block / 3 * 3 * 9 + (block % 3) * 3 in
    (position / 9 * 9 + k / 3 * 9) + (position % 9 + k % 3)

unfoldable pub compute_row_validity : List ℕ → ℕ → Option ℕ
unfolding validity_of row_position
compute_row_validity grid row = assert (ltb row 9) >> validity_of (row_position row) grid

unfoldable pub compute_column_validity : List ℕ → ℕ → Option ℕ
unfolding validity_of column_position
compute_column_validity grid column =
    assert (ltb column 9) >> validity_of (column_position column) grid

unfoldable pub compute_block_validity : List ℕ → ℕ → Option ℕ
unfolding validity_of block_position
compute_block_validity grid block = assert (ltb block 9) >> validity_of (block_position block) grid

-- a loop of `compute_grid_validity`, over the rows, the columns or the blocks
unfoldable pub all_validity : (List ℕ → ℕ → Option ℕ) → List ℕ → ℕ → ℕ → ℕ → Option ℕ
all_validity compute grid zero i validity = some validity
all_validity compute grid (suc n) i validity = do
  v ← compute grid i
  all_validity compute grid n (i + 1) (bit_or validity v)

unfoldable pub compute_grid_validity : List ℕ → Option ℕ
unfolding all_validity compute_row_validity compute_column_validity compute_block_validity
compute_grid_validity grid = do
  rows ← all_validity compute_row_validity grid 9 0 unknown
  columns ← all_validity compute_column_validity grid 9 0 rows
  all_validity compute_block_validity grid 9 0 columns

-- whether the row, the column or the block of the cell has a value twice
unfoldable pub is_dead_end : List ℕ → ℕ → Option Bool
unfolding compute_row_validity compute_column_validity compute_block_validity
is_dead_end grid position = do
  let row = position / 9
  let column = position % 9
  let block = row / 3 * 3 + column / 3
  r ← compute_row_validity grid row
  if not (bit_and r invalid == 0) then some true else (do
    c ← compute_column_validity grid column
    if not (bit_and c invalid == 0)
        then some true
        else (do b ← compute_block_validity grid block; some (not (bit_and b invalid == 0))))

-- How a call of `grid_solve` ends: it returns, or it prints a grid and exits.
pub data Outcome : Type 0 where
  returns : Outcome
  exits : List ℕ → Outcome

-- the loop over the possibilities of a cell, from `possibility` on; `explore` is the recursive call
unfoldable pub try_values : (List ℕ → Option Outcome) → List ℕ → List ℕ → ℕ → ℕ → ℕ → Option Outcome
unfolding is_dead_end
try_values explore grid possibilities position zero possibility = some returns
try_values explore grid possibilities position (suc n) possibility =
    let rest = try_values explore grid possibilities position n (possibility + 1) in
    get_elem? possibilities (position * 9 + possibility) >>= λ value.
    assert (leb value 9)
    >> (let work_grid = set grid position value in
        let explored = explore work_grid >>= elim [ returns ↦ rest | exits g ↦ some (exits g) ] in
        if value == 0
        then rest
        else (is_dead_end work_grid position >>= λ dead. if dead then rest else explored))

unfoldable pub finish : List ℕ → Option Outcome
unfolding compute_grid_validity
finish grid = do
  validity ← compute_grid_validity grid
  assert (validity == valid)
  some (exits grid)

unfoldable pub grid_solve : ℕ → List ℕ → List ℕ → ℕ → Option Outcome
grid_solve zero grid possibilities position = none
grid_solve (suc fuel) grid possibilities position =
    let next = λ (g : List ℕ). grid_solve fuel g possibilities (position + 1) in
    assert (leb position 81)
    >> (if position == 81
        then finish grid
        else (get_elem? grid position >>= λ original_value.
            assert (leb original_value 9)
            >> (if not (original_value == 0)
                then next grid
                else try_values next grid possibilities position 9 1)))

-- `value == '.' ? 0 : value - '0'`
unfoldable pub read_cell : ℕ → Option ℕ
read_cell value = do
  assert (value == b'.' || (leb b'1' value && leb value b'9'))
  some (if value == b'.' then 0 else value - b'0')

unfoldable pub read_grid_from_bytes : List ℕ → ℕ → Option (List ℕ)
unfolding read_cell
read_grid_from_bytes input zero = some []
read_grid_from_bytes [] (suc n) = none
read_grid_from_bytes (c ∷ input) (suc n) = do
  value ← read_cell c
  rest ← read_grid_from_bytes input n
  some (value ∷ rest)

-- The loop over the values of a cell in the first pass, from `j` on: the array of possibilities, how many
-- there are for the cell, and the last of them. The value that the loop leaves in the cell is
-- overwritten behind it.
unfoldable pub offer : List ℕ → ℕ → ℕ → ℕ → List ℕ × ℕ × ℕ → Option (List ℕ × ℕ × ℕ)
unfolding is_dead_end
offer grid i zero j found = some found
offer grid i (suc n) j (possibilities, count, last) = do
  dead ← is_dead_end (set grid i j) i
  found ←
      (if dead
        then some (possibilities, count, last)
        else (assert (ltb (i * 9 + j) 810) >> some (set possibilities (i * 9 + j) j, count + 1, j)))
  offer grid i n (j + 1) found

-- a round of the first pass, for cell `i`: the grid and the possibilities behind it
unfoldable pub pass_cell : List ℕ → List ℕ → ℕ → Option (List ℕ × List ℕ)
pass_cell grid possibilities i = do
  value ← get_elem? grid i
  assert (leb value 9)
  if not (value == 0) then some (grid, possibilities) else (do
    (found, count, last) ← offer grid i 9 1 (possibilities, 0, 0)
    assert (leb 1 count)
    assert (leb count 9)
    if ltb 1 count
        then some (grid, found)
        else (do assert (ltb 0 last); assert (leb last 9); some (set grid i last, found)))

-- the first pass over the cells, from cell `i` on
unfoldable pub first_pass : List ℕ → List ℕ → ℕ → ℕ → Option (List ℕ × List ℕ)
first_pass grid possibilities zero i = some (grid, possibilities)
first_pass grid possibilities (suc n) i = do
  (grid', possibilities') ← pass_cell grid possibilities i
  first_pass grid' possibilities' n (i + 1)

-- `possibilities`, at the start of `main`
unfoldable pub no_possibilities : List ℕ
no_possibilities = replicate 810 0

-- `main`, from the grid that was read
unfoldable pub solve : List ℕ → Option Outcome
solve grid = do
  (grid', possibilities) ← first_pass grid no_possibilities 81 0
  grid_solve 82 grid' possibilities 0
