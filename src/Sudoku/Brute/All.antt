-- ===== src/Sudoku/Brute/All.antt =====
-- The search by trying all fillings finds a solution.
use c_fs_subscriber.Base.{
  Bool-cases, length, get_or, ℕ, suc, ◌<◌, ◌≡◌, refl, sym, ◌∙◌, subst, inl, inr, true, false, some,
  List, arith, dec_lt,
}
use c_fs_subscriber.Sudoku.Brute.{increment, merge, first_solution, search}
use c_fs_subscriber.Sudoku.Brute.Odometer.{
  IsVector, Reaches, done, step, Next, vector_ext, increment_lem,
}
use c_fs_subscriber.Sudoku.Brute.Laps.{Alike, Alike-Reaches}
use c_fs_subscriber.Sudoku.Brute.Valid.{is_grid_valid_lem}
use c_fs_subscriber.Sudoku.Count.{IsGrid}
use c_fs_subscriber.Sudoku.Solution.{IsSolved, Extends}
use c_fs_subscriber.Sudoku.Brute.Merge.{
  length-merge, merge_at, filling, length-filling, filling_at, length-first_solution,
  first_solution_at, get_or-none,
}

-- The places that are counted are the empty cells of the grid `g0`.
record Fills (g0 s : List ℕ) : Type 0 where
  vector : IsVector s
  given : (p : ℕ) → p < 81 → 0 < get_or g0 p 0 → get_or s p 0 ≡ 0
  blank : (p : ℕ) → p < 81 → get_or g0 p 0 ≡ 0 → 0 < get_or s p 0

-- A grid that has the digits of `g0`.
record Based (g0 grid : List ℕ) : Type 0 where
  grid_digits : IsGrid grid
  extends : Extends g0 grid

Fills-Next : (g0 s s' : List ℕ) → Fills g0 s → Next 81 s s' → Fills g0 s'
Fills-Next g0 s s' f x = record {
  vector = x.vector;
  given = λ p l h. x.zero_stays p (f.given p l h);
  blank = λ p l h. x.positive_stays p (f.blank p l h);
}

merge-Based : (g0 grid s : List ℕ) → Based g0 grid → Fills g0 s → Based g0 (merge grid s)
merge-Based g0 grid s b f = record {
  grid_digits = record {
    size = length-merge grid s ∙ b.grid_digits.size;
    digits = λ p. elim (dec_lt p 81) [
      | yes l ↦ ground (
        arith,
        merge_at grid s p (omega (arith, b.grid_digits.size)) (omega (arith, f.vector.size)),
        f.vector.digits p,
        b.grid_digits.digits p,
      )
      | no l ↦ omega (
        arith,
        get_or-none (merge grid s) p (omega (arith, length-merge grid s, b.grid_digits.size)),
      )
    ];
  };
  extends = λ p l h. ground (
    arith,
    merge_at grid s p (omega (arith, b.grid_digits.size)) (omega (arith, f.vector.size)),
    f.given p l h,
    b.extends p l h,
  );
}

Fills-Alike : (g0 s t : List ℕ) → IsGrid g0 → Fills g0 s → Fills g0 t → Alike 81 s t
Fills-Alike g0 s t d f k = record {
  zero_too = λ p l z. elim (dec_lt 0 (get_or g0 p 0)) [
    | yes h ↦ k.given p l h
    | no h ↦ absurd (omega (arith, f.blank p l (omega arith)))
  ];
  positive_too = λ p l z. elim (dec_lt 0 (get_or g0 p 0)) [
    | yes h ↦ absurd (omega (arith, f.given p l h))
    | no h ↦ k.blank p l (omega arith)
  ];
  above = λ p l.
      get_or-none s p (omega (arith, f.vector.size))
      ∙ sym (get_or-none t p (omega (arith, k.vector.size)));
}

-- What the search gives for some fuel: a solution with the digits of `g0`.
abbrev Finds : List ℕ → List ℕ → List ℕ → Type 0
Finds g0 grid s =
    (fuel : ℕ) × (g : List ℕ) × (search fuel grid s ≡ some g) × IsSolved g × Extends g0 g

-- a step of the search
try_next :
    (g0 grid s s1 : List ℕ)
    → Based g0 grid
    → Fills g0 s1
    → increment s 81 ≡ some s1
    → (Based g0 (merge grid s1) → ¬ IsSolved (merge grid s1) → Finds g0 (merge grid s1) s1)
    → Finds g0 grid s
unfolding search
try_next g0 grid s s1 b f e go =
    let b' = merge-Based g0 grid s1 b f in
    let (valid, r, iff) = is_grid_valid_lem (merge grid s1) b'.grid_digits in
    elim (Bool-cases valid) [
      | inl y ↦ (1, merge grid s1, rw (e, r, y) refl, iff.0 y, b'.extends)
      | inr y ↦
          let (fuel, g, run, solved, x) = go b' (λ k. true_false (sym (iff.1 k) ∙ y)) in
          (suc fuel, g, rw (e, r, y) run, solved, x)
    ]
  where
    true_false : true ≡ false → ⊥
    true_false h = cc

module _ (g0 sol : List ℕ) (digits : IsGrid g0) (solved : IsSolved sol) (x : Extends g0 sol) where
  same_size : length g0 ≡ length sol
  same_size = digits.size ∙ sym solved.digits.size

  filling-Fills : Fills g0 (filling g0 sol)
  filling-Fills = record {
    vector = record {
      size = length-filling g0 sol same_size ∙ digits.size;
      digits = λ p. elim (dec_lt p 81) [
        | yes l ↦ ground (
          arith,
          filling_at g0 sol p (omega (arith, digits.size)) same_size,
          solved.digits.digits p,
        )
        | no l ↦ omega (
          arith,
          get_or-none (filling g0 sol) p
              (omega (arith, length-filling g0 sol same_size, digits.size)),
        )
      ];
    };
    given = λ p l h. ground (arith, filling_at g0 sol p (omega (arith, digits.size)) same_size);
    blank = λ p l h.
        ground
          (arith, filling_at g0 sol p (omega (arith, digits.size)) same_size, solved.filled p l);
  }

  first-Fills : Fills g0 (first_solution g0)
  first-Fills = record {
    vector = record {
      size = length-first_solution g0 ∙ digits.size;
      digits = λ p. elim (dec_lt p 81) [
        | yes l ↦ ground (arith, first_solution_at g0 p (omega (arith, digits.size)))
        | no l ↦ omega (
          arith,
          get_or-none (first_solution g0) p (omega (arith, length-first_solution g0, digits.size)),
        )
      ];
    };
    given = λ p l h. ground (arith, first_solution_at g0 p (omega (arith, digits.size)));
    blank = λ p l h. ground (arith, first_solution_at g0 p (omega (arith, digits.size)));
  }

  merge-filling : (grid : List ℕ) → Based g0 grid → merge grid (filling g0 sol) ≡ sol
  merge-filling grid b =
      vector_ext (merge grid (filling g0 sol)) sol
        (length-merge grid (filling g0 sol) ∙ b.grid_digits.size ∙ sym solved.digits.size)
        (λ p l. at p (omega (arith, length-merge grid (filling g0 sol), b.grid_digits.size)))
    where
      at : (p : ℕ) → p < 81 → get_or (merge grid (filling g0 sol)) p 0 ≡ get_or sol p 0
      at p l = ground (
        arith,
        merge_at grid (filling g0 sol) p (omega (arith, b.grid_digits.size))
            (omega (arith, filling-Fills.vector.size)),
        filling_at g0 sol p (omega (arith, digits.size)) same_size,
        solved.filled p l,
        b.extends p l,
        x p l,
      )

  search_from :
      (s1 grid s : List ℕ)
      → Reaches 81 (filling g0 sol) s1
      → Fills g0 s1
      → Based g0 grid
      → increment s 81 ≡ some s1
      → Finds g0 grid s
  search_from s1 grid s done f b e =
      try_next g0 grid s s1 b f e
        (λ b' n. absurd (n (subst IsSolved (sym (merge-filling grid b)) solved)))
  search_from s1 grid s (step s0 s2 h p) f b e = try_next g0 grid s s1 b f e (λ b' n.
      let (s2', h', y) = increment_lem 81 s1 f.vector (omega arith) in
      let same : s2' ≡ s2 = cc in
      search_from s2 (merge grid s1) s1 p (Fills-Next g0 s1 s2 f (subst (Next 81 s1) same y)) b' h)

-- Where a grid of digits has a solution, the search ends: for some number of rounds it fails no
-- assertion and gives a solution of the grid, 81 digits from 1 to 9, none of them twice in a row, a column
-- or a block, that has the digits of the grid in their places.
pub search_lem :
    (grid s : List ℕ)
    → IsGrid grid
    → IsSolved s
    → Extends grid s
    → (fuel : ℕ) × (g : List ℕ) × (search fuel grid (first_solution grid) ≡ some g)
      × IsSolved g
      × Extends grid g
search_lem grid s d solved x =
    let f = first-Fills grid s d solved x in
    let t = filling-Fills grid s d solved x in
    let (s1, e, y) = increment_lem 81 (first_solution grid) f.vector (omega arith) in
    let f1 = Fills-Next grid (first_solution grid) s1 f y in
    search_from grid s d solved x s1 grid (first_solution grid)
      (Alike-Reaches 81 s1 (filling grid s) (omega arith) f1.vector t.vector
        (Fills-Alike grid s1 (filling grid s) d f1 t))
      f1 (record { grid_digits = d; extends = λ p l h. refl }) e
