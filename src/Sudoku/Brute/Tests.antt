-- ===== src/Sudoku/Brute/Tests.antt =====
-- The second solver on a puzzle.
use c_fs_subscriber.Base.{ℕ, ◌≡◌, ◌↔◌, Bool, true, some, List}
use c_fs_subscriber.Sudoku.Solution.{IsSolved, Extends}
use c_fs_subscriber.Sudoku.Brute.{search, first_solution, is_grid_valid}
use c_fs_subscriber.Sudoku.Brute.All.{search_lem}
use c_fs_subscriber.Sudoku.Brute.Valid.{is_grid_valid_lem}
use c_fs_subscriber.Sudoku.Tests.{
  puzzle, solution, puzzle-IsGrid, solution-IsSolved, puzzle-Extends,
}

search_lem_example :
    (fuel : ℕ) × (g : List ℕ) × (search fuel puzzle (first_solution puzzle) ≡ some g)
    × IsSolved g
    × Extends puzzle g
search_lem_example = search_lem puzzle solution puzzle-IsGrid solution-IsSolved puzzle-Extends

is_grid_valid_lem_example :
    (b : Bool) × (is_grid_valid puzzle ≡ some b) × ((b ≡ true) ↔ IsSolved puzzle)
is_grid_valid_lem_example = is_grid_valid_lem puzzle puzzle-IsGrid
