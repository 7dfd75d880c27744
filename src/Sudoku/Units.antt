-- ===== src/Sudoku/Units.antt =====
-- The rows, the columns and the blocks of a grid, and which of them a cell lies in.
use c_fs_subscriber.Base.{lt→ltb, ℕ, ◌+◌, ◌*◌, ◌/◌, ◌%◌, ◌<◌, ◌≡◌, Option, some, List, arith}
use c_fs_subscriber.Sudoku.{
  row_position, column_position, block_position, compute_row_validity, compute_column_validity,
  compute_block_validity,
}
use c_fs_subscriber.Sudoku.Count.{values, IsClean, IsGrid, Inside}
use c_fs_subscriber.Sudoku.Verdict.{Verdict, validity_of_lem}

pub data Part : Type 0 where
  row column block : Part

abbrev pub place : Part → ℕ → ℕ → ℕ
place row = row_position
place column = column_position
place block = block_position

abbrev pub part_of : Part → ℕ → ℕ
part_of row p = p / 9
part_of column p = p % 9
part_of block p = p / 9 / 3 * 3 + p % 9 / 3

abbrev pub compute : Part → List ℕ → ℕ → Option ℕ
compute row = compute_row_validity
compute column = compute_column_validity
compute block = compute_block_validity

pub place_bound : (a : Part) (i : ℕ) → i < 9 → Inside (place a i)
unfolding row_position column_position block_position
place_bound row i h k m = omega arith
place_bound column i h k m = omega arith
place_bound block i h k m = omega arith

pub part_of-place : (a : Part) (i k : ℕ) → i < 9 → k < 9 → part_of a (place a i k) ≡ i
unfolding row_position column_position block_position
part_of-place row i k h m = omega arith
part_of-place column i k h m = omega arith
part_of-place block i k h m = omega arith

pub part_of-lt : (a : Part) (p : ℕ) → p < 81 → part_of a p < 9
part_of-lt row p h = omega arith
part_of-lt column p h = omega arith
part_of-lt block p h = omega arith

-- the values of a row, a column or a block
abbrev pub cells : Part → ℕ → List ℕ → List ℕ
cells a i grid = values (place a i) grid 9 0

-- No digit stands twice in a row, a column or a block.
abbrev pub Clean : List ℕ → Type 0
Clean grid = (a : Part) (i : ℕ) → i < 9 → IsClean (cells a i grid)

-- On a grid of digits, no assertion of `compute_row_validity`, `compute_column_validity` and
-- `compute_block_validity` fails, and the verdict is `VALIDITY_INVALID` where a digit stands twice,
-- `VALIDITY_INCOMPLETE` where none does and a cell is empty, and `VALIDITY_VALID` where neither holds.
pub compute_lem :
    (a : Part) (i : ℕ) (grid : List ℕ)
    → i < 9
    → IsGrid grid
    → (r : ℕ) × (compute a grid i ≡ some r) × Verdict (cells a i grid) r
unfolding compute_row_validity compute_column_validity compute_block_validity
compute_lem row i grid h g =
    let (r, e, v) = validity_of_lem (row_position i) grid g (place_bound row i h) in
    (r, rw (lt→ltb _ _ h) e, v)
compute_lem column i grid h g =
    let (r, e, v) = validity_of_lem (column_position i) grid g (place_bound column i h) in
    (r, rw (lt→ltb _ _ h) e, v)
compute_lem block i grid h g =
    let (r, e, v) = validity_of_lem (block_position i) grid g (place_bound block i h) in
    (r, rw (lt→ltb _ _ h) e, v)
