-- ===== src/Sudoku/Solve.antt =====
-- The whole search, from a cell on.
use c_fs_subscriber.Base.{
  ◌==◌, le→leb, eq→==, length, get_elem?, get_or, set, get_elem?-eq-get_or, get_or-set_self,
  get_or-set_ne, ℕ, zero, suc, ◌+◌, ◌≤◌, ◌<◌, ◌≡◌, refl, ap, ◌∙◌, subst, false, some, List, arith,
  dec_lt, ℕ_discrete,
}
use c_fs_subscriber.Sudoku.{exits, Outcome}
use c_fs_subscriber.Sudoku.Count.{IsGrid}
use c_fs_subscriber.Sudoku.Units.{Clean}
use c_fs_subscriber.Sudoku.Solution.{IsFilled, IsSolved, finish_lem}
use c_fs_subscriber.Sudoku.{Outcome, exits, try_values, grid_solve}
use c_fs_subscriber.Sudoku.Step.{set-IsGrid, CleanAt, set-Clean}
use c_fs_subscriber.Sudoku.Search.{IsOffer, Right, try_values_lem}

-- a search over a grid in which no digit stands twice, whose cells before `p` are filled
pub record IsOpen (grid : List ℕ) (p : ℕ) : Type 0 where
  pub cells_left : p ≤ 81
  pub digits : IsGrid grid
  pub clean : Clean grid
  pub filled : IsFilled p grid

IsFilled-step :
    (grid : List ℕ) (p : ℕ) → IsFilled p grid → 0 < get_or grid p 0 → IsFilled (p + 1) grid
IsFilled-step grid p f h q m = elim (ℕ_discrete p q) [
  | yes e ↦ subst (λ t. 0 < get_or grid t 0) e h
  | no e ↦ f q (omega arith)
]

IsOpen-set :
    (grid : List ℕ) (p v : ℕ)
    → IsOpen grid p
    → p < 81
    → 0 < v
    → v ≤ 9
    → CleanAt (set grid p v) p
    → IsOpen (set grid p v) (p + 1)
IsOpen-set grid p v a l pos small c =
    let at = get_or-set_self grid p v 0 (omega (arith, a.digits.size)) in
    record {
      cells_left = omega arith;
      digits = set-IsGrid grid p v a.digits l small;
      clean = set-Clean grid p v a.clean c;
      filled =
          IsFilled-step (set grid p v) p
            (λ q m.
              omega
                (arith, a.filled q m, get_or-set_ne grid {i = p} {j = q} v 0 (λ e. omega arith)))
            (omega arith);
    }

grid_solve_blank :
    (fuel : ℕ) (grid possibilities : List ℕ) (p : ℕ)
    → p < 81
    → length grid ≡ 81
    → get_or grid p 0 ≡ 0
    → grid_solve (suc fuel) grid possibilities p
      ≡ try_values (λ g. grid_solve fuel g possibilities (p + 1)) grid possibilities p 9 1
unfolding grid_solve
grid_solve_blank fuel grid possibilities p l size blank =
    let middle : (p == 81) ≡ false = ground arith in
    let read : get_elem? grid p ≡ some 0 =
      get_elem?-eq-get_or grid p 0 (omega arith) ∙ ap some blank in
    rw (le→leb p 81 (omega arith), middle, read) refl

-- In a grid of digits in which no digit stands twice, and whose cells before `p` are filled, the search
-- from cell `p` on ends, with one round of fuel for each cell and one more, and no assertion fails. If
-- it prints a grid, that is a solution that extends the given one; if it returns, the grid has no solution
-- whose values are among the possibilities.
pub grid_solve_lem :
    (fuel : ℕ) (grid possibilities : List ℕ) (p : ℕ)
    → IsOpen grid p
    → IsOffer possibilities
    → 81 < fuel + p
    → (o : Outcome) × (grid_solve fuel grid possibilities p ≡ some o) × Right grid possibilities o
unfolding grid_solve
grid_solve_lem zero grid possibilities p a offer f = absurd (omega (arith, a.cells_left))
grid_solve_lem (suc fuel) grid possibilities p a offer f = elim (ℕ_discrete p 81) [
  | yes e ↦
      let solved : IsSolved grid = record {
        digits = a.digits;
        clean = a.clean;
        filled = subst (λ t. IsFilled t grid) e a.filled;
      } in
      (
        exits grid,
        rw (le→leb p 81 a.cells_left, eq→== p 81 e) (finish_lem grid solved),
        (solved, λ q m h. refl),
      )
  | no e ↦
      let l : p < 81 = omega (arith, a.cells_left) in
      let middle : (p == 81) ≡ false = ground arith in
      let read = get_elem?-eq-get_or grid p 0 (omega (arith, a.digits.size)) in
      let small = a.digits.digits p in
      elim (dec_lt 0 (get_or grid p 0)) [
        | yes h ↦
            let given : (get_or grid p 0 == 0) ≡ false = ground arith in
            let (o, eo, r) =
              grid_solve_lem fuel grid possibilities (p + 1)
                (record {
                  cells_left = omega arith;
                  digits = a.digits;
                  clean = a.clean;
                  filled = IsFilled-step grid p a.filled h;
                })
                offer (omega arith) in
            (
              o,
              rw (le→leb p 81 a.cells_left, middle, read, le→leb (get_or grid p 0) 9 small, given)
                  eo,
              r,
            )
        | no h ↦
            let blank : get_or grid p 0 ≡ 0 = omega arith in
            let (o, eo, r) =
              try_values_lem grid possibilities p l a.digits offer blank
                (λ g. grid_solve fuel g possibilities (p + 1))
                (λ v pos le c.
                  grid_solve_lem fuel (set grid p v) possibilities (p + 1)
                    (IsOpen-set grid p v a l pos le c) offer (omega arith)) in
            (o, grid_solve_blank fuel grid possibilities p l a.digits.size blank ∙ eo, r)
      ]
]
