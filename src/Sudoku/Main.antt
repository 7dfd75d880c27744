-- ===== src/Sudoku/Main.antt =====
-- The two passes of the program put together.
use c_fs_subscriber.Base.{
  get_or, length-replicate, get_or-replicate, ℕ, ◌+◌, ◌*◌, ◌<◌, ◌≡◌, refl, ap, ◌∙◌, some, List,
  arith,
}
use c_fs_subscriber.Sudoku.{exits, Outcome}
use c_fs_subscriber.Sudoku.Count.{IsGrid}
use c_fs_subscriber.Sudoku.Solution.{IsSolved, Extends, Extends-Clean}
use c_fs_subscriber.Sudoku.{Outcome, returns, exits}
use c_fs_subscriber.Sudoku.Search.{IsOffer}
use c_fs_subscriber.Sudoku.{no_possibilities, solve, returns}
use c_fs_subscriber.Sudoku.Search.{Right}
use c_fs_subscriber.Sudoku.Solve.{IsOpen, grid_solve_lem}
use c_fs_subscriber.Sudoku.First.{Extends-trans, first_pass_lem}

-- A search that has a solution to find prints one.
prints :
    (s grid ps : List ℕ)
    → IsSolved s
    → Extends grid s
    → ((q : ℕ) → q < 81 → get_or grid q 0 ≡ 0 → get_or ps (q * 9 + get_or s q 0) 0 ≡ get_or s q 0)
    → (o : Outcome) → Right grid ps o
    → (g : List ℕ) × (o ≡ exits g) × IsSolved g × Extends grid g
prints s grid ps solved x offered returns right = absurd (right s solved x offered)
prints s grid ps solved x offered (exits g) right = (g, refl, right.0, right.1)

pub no_possibilities-IsOffer : IsOffer no_possibilities
unfolding no_possibilities
no_possibilities-IsOffer = record {
  size = length-replicate {A = ℕ} 810 0;
  digits = λ i. omega (arith, get_or-replicate {A = ℕ} 810 i 0);
}

-- Where a grid of digits has a solution, the program ends, no assertion fails, and it prints a solution of
-- the grid: 81 digits from 1 to 9, none of them twice in a row, a column or a block, that has the
-- digits of the grid in their places.
pub solve_lem :
    (grid s : List ℕ)
    → IsGrid grid
    → IsSolved s
    → Extends grid s
    → (g : List ℕ) × (solve grid ≡ some (exits g)) × IsSolved g × Extends grid g
unfolding solve
solve_lem grid s g solved x =
    let (grid', ps, run, p, x') = first_pass_lem s solved 81 0 grid no_possibilities refl (record {
      digits = g;
      extends = x;
      is_offer = no_possibilities-IsOffer;
      offered = λ q l. absurd (omega arith);
    }) in
    let open_grid : IsOpen grid' 0 = record {
      cells_left = omega arith;
      digits = p.digits;
      clean = Extends-Clean grid' s p.extends solved.clean;
      filled = λ q l. absurd (omega arith);
    } in
    let (o, run', right) = grid_solve_lem 82 grid' ps 0 open_grid p.is_offer (omega arith) in
    let (g', e, solved', x'') = prints s grid' ps solved p.extends p.offered o right in
    (g', rw run (run' ∙ ap some e), solved', Extends-trans grid grid' g' x' x'')
