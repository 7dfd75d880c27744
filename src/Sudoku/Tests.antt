-- ===== src/Sudoku/Tests.antt =====
-- Puzzles.
use c_fs_subscriber.Base.{
  ltb, leb, ◌==◌, length, get_or, All, All-get_or, ℕ, zero, suc, ◌≤◌, ◌<◌, ◌≡◌, refl, Bool, true,
  ◌&&◌, ◌||◌, some, List, [], ◌∷◌, arith,
}
use c_fs_subscriber.Sudoku.{
  solve, no_possibilities, first_pass, pass_cell, offer, grid_solve, try_values, finish, exits,
  Outcome, row_position, column_position, block_position,
}
use c_fs_subscriber.Sudoku.Count.{count, IsClean, IsGrid}
use c_fs_subscriber.Sudoku.Verdict.{Verdict}
use c_fs_subscriber.Sudoku.Units.{Part, row, column, block, compute, cells, Clean, compute_lem}
use c_fs_subscriber.Sudoku.Solution.{IsFilled, IsSolved, Extends, Extends-Clean}
use c_fs_subscriber.Sudoku.Search.{Right}
use c_fs_subscriber.Sudoku.Solve.{grid_solve_lem}
use c_fs_subscriber.Sudoku.Main.{solve_lem, no_possibilities-IsOffer}

abbrev pub puzzle : List ℕ
puzzle =
    5 ∷ 3 ∷ 0 ∷ 0 ∷ 7 ∷ 0 ∷ 0 ∷ 0 ∷ 0 ∷ 6 ∷ 0 ∷ 0 ∷ 1 ∷ 9 ∷ 5 ∷ 0 ∷ 0 ∷ 0 ∷ 0 ∷ 9 ∷ 8 ∷ 0 ∷ 0 ∷ 0
    ∷ 0 ∷ 6 ∷ 0 ∷ 8 ∷ 0 ∷ 0 ∷ 0 ∷ 6 ∷ 0 ∷ 0 ∷ 0 ∷ 3 ∷ 4 ∷ 0 ∷ 0 ∷ 8 ∷ 0 ∷ 3 ∷ 0 ∷ 0 ∷ 1 ∷ 7 ∷ 0 ∷ 0
    ∷ 0 ∷ 2 ∷ 0 ∷ 0 ∷ 0 ∷ 6 ∷ 0 ∷ 6 ∷ 0 ∷ 0 ∷ 0 ∷ 0 ∷ 2 ∷ 8 ∷ 0 ∷ 0 ∷ 0 ∷ 0 ∷ 4 ∷ 1 ∷ 9 ∷ 0 ∷ 0 ∷ 5
    ∷ 0 ∷ 0 ∷ 0 ∷ 0 ∷ 8 ∷ 0 ∷ 0 ∷ 7 ∷ 9 ∷ []

abbrev pub solution : List ℕ
solution =
    5 ∷ 3 ∷ 4 ∷ 6 ∷ 7 ∷ 8 ∷ 9 ∷ 1 ∷ 2 ∷ 6 ∷ 7 ∷ 2 ∷ 1 ∷ 9 ∷ 5 ∷ 3 ∷ 4 ∷ 8 ∷ 1 ∷ 9 ∷ 8 ∷ 3 ∷ 4 ∷ 2
    ∷ 5 ∷ 6 ∷ 7 ∷ 8 ∷ 5 ∷ 9 ∷ 7 ∷ 6 ∷ 1 ∷ 4 ∷ 2 ∷ 3 ∷ 4 ∷ 2 ∷ 6 ∷ 8 ∷ 5 ∷ 3 ∷ 7 ∷ 9 ∷ 1 ∷ 7 ∷ 1 ∷ 3
    ∷ 9 ∷ 2 ∷ 4 ∷ 8 ∷ 5 ∷ 6 ∷ 9 ∷ 6 ∷ 1 ∷ 5 ∷ 3 ∷ 7 ∷ 2 ∷ 8 ∷ 4 ∷ 2 ∷ 8 ∷ 7 ∷ 4 ∷ 1 ∷ 9 ∷ 6 ∷ 3 ∷ 5
    ∷ 3 ∷ 4 ∷ 5 ∷ 2 ∷ 8 ∷ 6 ∷ 1 ∷ 7 ∷ 9 ∷ []

solve-puzzle : solve puzzle ≡ some (exits solution)
unfolding solve no_possibilities first_pass pass_cell offer grid_solve try_values finish
solve-puzzle = refl

all_below : ℕ → (ℕ → Bool) → Bool
all_below zero p = true
all_below (suc n) p = p n && all_below n p

all_below_lem : (n : ℕ) (p : ℕ → Bool) (x : ℕ) → all_below n p ≡ true → x < n → p x ≡ true
unfolding all_below
all_below_lem zero p x h l = absurd (omega arith)
all_below_lem (suc n) p x h l = ground (arith, all_below_lem n p x)

at_most_one : (v n : ℕ) → 0 < v → (v == 0 || leb n 1) ≡ true → n ≤ 1
at_most_one v n pos h = ground arith

-- whether no digit stands twice in the rows, the columns or the blocks
is_clean : Part → List ℕ → Bool
unfolding all_below
is_clean a grid = all_below 9 (λ i. all_below 10 (λ v. v == 0 || leb (count v (cells a i grid)) 1))

is_clean_lem :
    (a : Part) (grid : List ℕ) → is_clean a grid ≡ true → (i : ℕ) → i < 9 → IsClean (cells a i grid)
unfolding is_clean
is_clean_lem a grid h i l v pos small = at_most_one v (count v (cells a i grid)) pos (
    all_below_lem 10 (λ v. v == 0 || leb (count v (cells a i grid)) 1) v
      (all_below_lem 9 (λ i. all_below 10 (λ v. v == 0 || leb (count v (cells a i grid)) 1)) i h l)
      (omega arith))

solution-Clean : Clean solution
unfolding is_clean row_position column_position block_position
solution-Clean row = is_clean_lem row solution refl
solution-Clean column = is_clean_lem column solution refl
solution-Clean block = is_clean_lem block solution refl

-- a list of digits is a grid
digits-IsGrid : (grid : List ℕ) → length grid ≡ 81 → All (λ d. d ≤ 9) grid → IsGrid grid
digits-IsGrid grid l h = record {
  size = l;
  digits = λ p. All-get_or (λ d. d ≤ 9) grid p 0 (omega arith) h;
}

solution-IsFilled : IsFilled 81 solution
unfolding all_below
solution-IsFilled p l = ground (arith, all_below_lem 81 (λ p. ltb 0 (get_or solution p 0)) p refl l)

pub solution-IsSolved : IsSolved solution
solution-IsSolved = record {
  digits = digits-IsGrid solution refl (omega arith);
  clean = solution-Clean;
  filled = solution-IsFilled;
}

pub puzzle-Extends : Extends puzzle solution
unfolding all_below
puzzle-Extends p l pos = ground (
  arith,
  all_below_lem 81 (λ p. get_or puzzle p 0 == 0 || get_or solution p 0 == get_or puzzle p 0) p refl
      l,
)

pub puzzle-IsGrid : IsGrid puzzle
puzzle-IsGrid = digits-IsGrid puzzle refl (omega arith)

solve_lem_example : (g : List ℕ) × (solve puzzle ≡ some (exits g)) × IsSolved g × Extends puzzle g
solve_lem_example = solve_lem puzzle solution puzzle-IsGrid solution-IsSolved puzzle-Extends

compute_lem_example : (r : ℕ) × (compute block puzzle 4 ≡ some r) × Verdict (cells block 4 puzzle) r
compute_lem_example = compute_lem block 4 puzzle (omega arith) puzzle-IsGrid

grid_solve_lem_example :
    (o : Outcome) × (grid_solve 82 puzzle no_possibilities 0 ≡ some o)
    × Right puzzle no_possibilities o
grid_solve_lem_example =
    grid_solve_lem 82 puzzle no_possibilities 0
      (record {
        cells_left = omega arith;
        digits = puzzle-IsGrid;
        clean = Extends-Clean puzzle solution puzzle-Extends solution-Clean;
        filled = λ q l. absurd (omega arith);
      })
      no_possibilities-IsOffer (omega arith)
