-- ===== src/Sudoku/Brute/Valid.antt =====
-- The check of a whole grid by products of primes.
use c_fs_subscriber.Base.{
  ◌==◌, lt→ltb, le→leb, ==_iff, Bool-cases, get_or, All, get_elem?-eq-get_or, mul64, ℕ, zero, suc,
  ◌+◌, ◌*◌, ◌/◌, ◌%◌, ◌^◌, ◌≤◌, ◌<◌, ◌≡◌, refl, sym, ap, ◌∙◌, subst, ◌↔◌, inl, inr, Bool, true,
  false, Option, some, List, arith, ℕ_discrete,
}
use c_fs_subscriber.Sudoku.{row_position}
use c_fs_subscriber.Sudoku.Brute.{
  primes, filled_id, id_of, is_full, is_row_valid, is_column_valid, is_block_valid, all_full,
  is_grid_valid,
}
use c_fs_subscriber.Sudoku.Brute.Primes.{prime, prime-bounds, product}
use c_fs_subscriber.Sudoku.Brute.Check.{product_iff}
use c_fs_subscriber.Sudoku.Count.{count, values, IsGrid, IsClean, Inside}
use c_fs_subscriber.Sudoku.Verdict.{total-values}
use c_fs_subscriber.Sudoku.Units.{Part, row, column, block, place, place_bound, cells, Clean}
use c_fs_subscriber.Sudoku.Solution.{IsFilled, IsSolved, count-zero}

-- A product of `k` primes is at most that.
abbrev bound : ℕ → ℕ
bound zero = 1
bound (suc k) = 23 * bound k

bound-small : (k : ℕ) → k ≤ 9 → bound k < 2 ^ 64
bound-small zero h = omega arith
bound-small (suc zero) h = omega arith
bound-small (suc (suc zero)) h = omega arith
bound-small (suc (suc (suc zero))) h = omega arith
bound-small (suc (suc (suc (suc zero)))) h = omega arith
bound-small (suc (suc (suc (suc (suc zero))))) h = omega arith
bound-small (suc (suc (suc (suc (suc (suc zero)))))) h = omega arith
bound-small (suc (suc (suc (suc (suc (suc (suc zero))))))) h = omega arith
bound-small (suc (suc (suc (suc (suc (suc (suc (suc zero)))))))) h = omega arith
bound-small (suc (suc (suc (suc (suc (suc (suc (suc (suc zero))))))))) h = omega arith
bound-small (suc (suc (suc (suc (suc (suc (suc (suc (suc (suc k)))))))))) h = absurd (omega arith)

next_product : (id p b : ℕ) → 0 < id → 0 < p → p ≤ 23 → id ≤ b → (0 < id * p) × (id * p ≤ 23 * b)
next_product id p b pos q l m = grind arith

values-All :
    (position : ℕ → ℕ) (grid : List ℕ) (n k : ℕ)
    → IsGrid grid
    → All (λ x. x ≤ 9) (values position grid n k)
values-All position grid zero k g = tt
values-All position grid (suc n) k g = (g.digits (position k), values-All position grid n (k + 1) g)

-- The loop computes the product: no assertion fails, and it does not overflow.
id_of_lem :
    (position : ℕ → ℕ) (grid : List ℕ) (n k id : ℕ)
    → IsGrid grid
    → Inside position
    → k + n ≤ 9
    → 0 < id
    → id ≤ bound k
    → id_of position grid n k id ≡ some (product (values position grid n k) id)
unfolding id_of
id_of_lem position grid zero k id g i l pos small = refl
id_of_lem position grid (suc n) k id g i l pos small =
    let x = get_or grid (position k) 0 in
    let p = prime-bounds x (g.digits (position k)) in
    let b = next_product id (prime x) (bound k) pos p.0 p.1 small in
    let same : k + 1 ≡ suc k = omega arith in
    let grown : bound (k + 1) ≡ 23 * bound k = ap bound same in
    let fits = bound-small (k + 1) (omega arith) in
    let exact : mul64 id (prime x) ≡ id * prime x = omega (arith, b.1, grown, fits) in
    rw
      (
        lt→ltb (position k) 81 (i k (omega arith)),
        get_elem?-eq-get_or grid (position k) 0 (omega (arith, i k, g.size)),
        le→leb x 9 (g.digits (position k)),
        get_elem?-eq-get_or primes x 0 (omega (arith, g.digits (position k))),
        lt→ltb 0 (prime x) p.0,
        le→leb (prime x) 23 p.1,
        lt→ltb 0 id pos,
        exact,
        lt→ltb 0 (id * prime x) b.0,
      )
      (id_of_lem position grid n (k + 1) (id * prime x) g i (omega arith) b.0
        (omega (arith, b.1, grown)))

abbrev IsFull : List ℕ → Type 0
IsFull xs = (count 0 xs ≡ 0) × IsClean xs

abbrev Tests : Option Bool → Type 0 → Type 0
Tests r P = (b : Bool) × (r ≡ some b) × ((b ≡ true) ↔ P)

is_full_lem :
    (a : Part) (i : ℕ) (grid : List ℕ)
    → i < 9
    → IsGrid grid
    → Tests (is_full (place a i) grid) (IsFull (cells a i grid))
unfolding is_full
is_full_lem a i grid h g =
    let xs = cells a i grid in
    let iff =
      product_iff xs (values-All (place a i) grid 9 0 g) (total-values (place a i) grid 9 0 g) in
    (
      product xs 1 == filled_id,
      rw
          (id_of_lem (place a i) grid 9 0 1 g (place_bound a i h) (omega arith) (omega arith)
            (omega arith))
          refl,
      (
        λ e. iff.0 ((==_iff (product xs 1) filled_id).0 e),
        λ f. (==_iff (product xs 1) filled_id).1 (iff.1 f),
      ),
    )

abbrev is_valid : Part → List ℕ → ℕ → Option Bool
is_valid row = is_row_valid
is_valid column = is_column_valid
is_valid block = is_block_valid

is_valid_lem :
    (a : Part) (i : ℕ) (grid : List ℕ)
    → i < 9
    → IsGrid grid
    → Tests (is_valid a grid i) (IsFull (cells a i grid))
unfolding is_row_valid is_column_valid is_block_valid
is_valid_lem row i grid h g =
    let (b, e, iff) = is_full_lem row i grid h g in (b, rw (lt→ltb i 9 h) e, iff)
is_valid_lem column i grid h g =
    let (b, e, iff) = is_full_lem column i grid h g in (b, rw (lt→ltb i 9 h) e, iff)
is_valid_lem block i grid h g =
    let (b, e, iff) = is_full_lem block i grid h g in
    (b, rw (lt→ltb (i / 3 * 3 * 9 + (i % 3) * 3) 81 (omega arith)) e, iff)

all_full_lem :
    (a : Part) (grid : List ℕ) (n i : ℕ)
    → i + n ≡ 9
    → IsGrid grid
    → Tests (all_full (is_valid a) grid n i) ((j : ℕ) → i ≤ j → j < 9 → IsFull (cells a j grid))
unfolding all_full
all_full_lem a grid zero i e g = (true, refl, (λ z j l m. absurd (omega arith), λ z. refl))
all_full_lem a grid (suc n) i e g =
    let (b, r, iff) = is_valid_lem a i grid (omega arith) g in
    let (c, r', iff') = all_full_lem a grid n (i + 1) (omega arith) g in
    elim (Bool-cases b) [
      | inl y ↦
          rw (r, y)
            (
              c,
              r',
              (
                λ z j l m. elim (ℕ_discrete i j) [
                  | yes s ↦ subst (λ t. IsFull (cells a t grid)) s (iff.0 y)
                  | no s ↦ iff'.0 z j (omega arith) m
                ],
                λ z. iff'.1 (λ j l m. z j (omega arith) m),
              ),
            )
      | inr y ↦
          rw (r, y) (false, refl, (λ z. cc, λ z. sym y ∙ iff.1 (z i (omega arith) (omega arith))))
    ]

positive :
    (position : ℕ → ℕ) (grid : List ℕ) (n k j : ℕ)
    → count 0 (values position grid n k) ≡ 0
    → k ≤ j
    → j < k + n
    → 0 < get_or grid (position j) 0
positive position grid zero k j z l m = absurd (omega arith)
positive position grid (suc n) k j z l m = elim (ℕ_discrete k j) [
  | yes e ↦ subst (λ t. 0 < get_or grid (position t) 0) e (ground arith)
  | no e ↦ positive position grid n (k + 1) j (ground arith) (omega arith) (omega arith)
]

full-IsFilled : (grid : List ℕ) → ((j : ℕ) → j < 9 → IsFull (cells row j grid)) → IsFilled 81 grid
unfolding row_position
full-IsFilled grid good p l =
    subst (λ t. 0 < get_or grid t 0) cell
      (positive (place row (p / 9)) grid 9 0 (p % 9) (good (p / 9) (omega arith)).0 (omega arith)
        (omega arith))
  where
    cell : place row (p / 9) (p % 9) ≡ p
    cell = omega arith

-- On a grid of digits, `is_grid_valid` fails no assertion, and returns true exactly for the grids that are
-- solved: no empty cell, and no digit twice in a row, a column or a block.
pub is_grid_valid_lem :
    (grid : List ℕ)
    → IsGrid grid
    → (b : Bool) × (is_grid_valid grid ≡ some b) × ((b ≡ true) ↔ IsSolved grid)
unfolding is_grid_valid
is_grid_valid_lem grid g =
    let (b1, r1, i1) = all_full_lem row grid 9 0 refl g in
    let (b2, r2, i2) = all_full_lem column grid 9 0 refl g in
    let (b3, r3, i3) = all_full_lem block grid 9 0 refl g in
    elim (Bool-cases b1) [
      | inr y ↦ rw (r1, y) (false, refl, (λ z. cc, λ z. sym y ∙ i1.1 (λ j l m. full row j m z)))
      | inl y ↦ elim (Bool-cases b2) [
        | inr z ↦
            rw (r1, y, r2, z)
              (false, refl, (λ k. cc, λ k. sym z ∙ i2.1 (λ j l m. full column j m k)))
        | inl z ↦
            rw (r1, y, r2, z)
              (
                b3,
                r3,
                (
                  λ k.
                      solved (λ j m. i1.0 y j (omega arith) m) (λ j m. i2.0 z j (omega arith) m)
                        (λ j m. i3.0 k j (omega arith) m),
                  λ k. i3.1 (λ j l m. full block j m k),
                ),
              )
      ]
    ]
  where
    full : (a : Part) (j : ℕ) → j < 9 → IsSolved grid → IsFull (cells a j grid)
    full a j m s =
        (count-zero (place a j) grid 9 0 (place_bound a j m) (omega arith) s.filled, s.clean a j m)

    clean :
        ((j : ℕ) → j < 9 → IsFull (cells row j grid))
        → ((j : ℕ) → j < 9 → IsFull (cells column j grid))
        → ((j : ℕ) → j < 9 → IsFull (cells block j grid))
        → Clean grid
    clean rows columns blocks row j m = (rows j m).1
    clean rows columns blocks column j m = (columns j m).1
    clean rows columns blocks block j m = (blocks j m).1

    solved :
        ((j : ℕ) → j < 9 → IsFull (cells row j grid))
        → ((j : ℕ) → j < 9 → IsFull (cells column j grid))
        → ((j : ℕ) → j < 9 → IsFull (cells block j grid))
        → IsSolved grid
    solved rows columns blocks = record {
      digits = g;
      clean = clean rows columns blocks;
      filled = full-IsFilled grid rows;
    }
