-- ===== src/Sudoku/Verdict.antt =====
-- The verdict of `compute_row_validity`, `compute_column_validity` and `compute_block_validity`.
use c_fs_subscriber.Base.{
  ◌==◌, if◌then◌else◌, lt→ltb, le→ltb, get_or, replicate, get_or-replicate, ℕ, zero, suc, ◌+◌, ◌≤◌,
  ◌<◌, ◌≡◌, refl, ◌∙◌, subst, ◌⊎◌, inl, inr, true, false, some, List, arith, dec_lt, ℕ_discrete,
}
use c_fs_subscriber.Sudoku.{seen_twice, judge, validity_of, invalid, valid, incomplete}
use c_fs_subscriber.Sudoku.Count.{count, values, IsClean, Holds, IsGrid, Inside, see_cells-Holds}

-- How often the ten values occur, put together.
abbrev pub total : (ℕ → ℕ) → ℕ
total c = c 0 + c 1 + c 2 + c 3 + c 4 + c 5 + c 6 + c 7 + c 8 + c 9

total_one : (x : ℕ) → x ≤ 9 → total (λ v. if x == v then 1 else 0) ≡ 1
total_one zero h = omega arith
total_one (suc zero) h = omega arith
total_one (suc (suc zero)) h = omega arith
total_one (suc (suc (suc zero))) h = omega arith
total_one (suc (suc (suc (suc zero)))) h = omega arith
total_one (suc (suc (suc (suc (suc zero))))) h = omega arith
total_one (suc (suc (suc (suc (suc (suc zero)))))) h = omega arith
total_one (suc (suc (suc (suc (suc (suc (suc zero))))))) h = omega arith
total_one (suc (suc (suc (suc (suc (suc (suc (suc zero)))))))) h = omega arith
total_one (suc (suc (suc (suc (suc (suc (suc (suc (suc zero))))))))) h = omega arith
total_one (suc (suc (suc (suc (suc (suc (suc (suc (suc (suc x)))))))))) h = absurd (omega arith)

pub total-values :
    (position : ℕ → ℕ) (grid : List ℕ) (n k : ℕ)
    → IsGrid grid
    → total (λ v. count v (values position grid n k)) ≡ n
total-values position grid zero k g = omega arith
total-values position grid (suc n) k g = omega (
  arith,
  total_one (get_or grid (position k) 0) (g.digits (position k)),
  total-values position grid n (k + 1) g,
)

-- Whether one of the counters `i`, ..., `i + n - 1` is above 1.
seen_twice_lem :
    (seen : List ℕ) (n i : ℕ)
    → ((seen_twice seen n i ≡ true) × ((v : ℕ) × (i ≤ v) × (v < i + n) × (1 < get_or seen v 0)))
      ⊎ ((seen_twice seen n i ≡ false) × ((v : ℕ) → i ≤ v → v < i + n → get_or seen v 0 ≤ 1))
unfolding seen_twice
seen_twice_lem seen zero i = inr (refl, λ v l m. absurd (omega arith))
seen_twice_lem seen (suc n) i = elim (dec_lt 1 (get_or seen i 0)) [
  | yes h ↦ inl (rw (lt→ltb _ _ h) refl, (i, omega arith, omega arith, h))
  | no h ↦ elim (seen_twice_lem seen n (i + 1)) [
    | inl (e, (v, l, m, big)) ↦
        inl (rw (le→ltb 1 (get_or seen i 0) (omega arith)) e, (v, omega arith, omega arith, big))
    | inr (e, small) ↦ inr (
      rw (le→ltb 1 (get_or seen i 0) (omega arith)) e,
      λ v l m. elim (ℕ_discrete i v) [
        | yes s ↦ subst (λ t. get_or seen t 0 ≤ 1) s (omega arith)
        | no s ↦ small v (omega arith) (omega arith)
      ],
    )
  ]
]

-- The verdict on nine cells: a digit that occurs twice, or none and an empty cell, or neither.
pub data Verdict (xs : List ℕ) (r : ℕ) : Type 0 where
  twice : (v : ℕ) → 0 < v → v ≤ 9 → 1 < count v xs → r ≡ invalid → Verdict xs r
  empty : IsClean xs → 0 < count 0 xs → r ≡ incomplete → Verdict xs r
  full : IsClean xs → count 0 xs ≡ 0 → r ≡ valid → Verdict xs r

-- No digit occurs twice.
record Small (c : ℕ → ℕ) : Type 0 where
  s1 : c 1 ≤ 1
  s2 : c 2 ≤ 1
  s3 : c 3 ≤ 1
  s4 : c 4 ≤ 1
  s5 : c 5 ≤ 1
  s6 : c 6 ≤ 1
  s7 : c 7 ≤ 1
  s8 : c 8 ≤ 1
  s9 : c 9 ≤ 1

-- Nine values without an empty cell, and no digit twice: each digit occurs once.
full_at : (c : ℕ → ℕ) → total c ≡ 9 → c 0 ≡ 0 → Small c → (v : ℕ) → 0 < v → v ≤ 9 → c v ≡ 1
full_at c nine none_empty s zero p q = absurd (omega arith)
full_at c nine none_empty s (suc zero) p q = omega arith
full_at c nine none_empty s (suc (suc zero)) p q = omega arith
full_at c nine none_empty s (suc (suc (suc zero))) p q = omega arith
full_at c nine none_empty s (suc (suc (suc (suc zero)))) p q = omega arith
full_at c nine none_empty s (suc (suc (suc (suc (suc zero))))) p q = omega arith
full_at c nine none_empty s (suc (suc (suc (suc (suc (suc zero)))))) p q = omega arith
full_at c nine none_empty s (suc (suc (suc (suc (suc (suc (suc zero))))))) p q = omega arith
full_at c nine none_empty s (suc (suc (suc (suc (suc (suc (suc (suc zero)))))))) p q = omega arith
full_at c nine none_empty s (suc (suc (suc (suc (suc (suc (suc (suc (suc zero))))))))) p q =
    omega arith
full_at c nine none_empty s (suc (suc (suc (suc (suc (suc (suc (suc (suc (suc v)))))))))) p q =
    absurd (omega arith)

pub full_ones :
    (c : ℕ → ℕ)
    → total c ≡ 9
    → c 0 ≡ 0
    → ((v : ℕ) → 0 < v → v ≤ 9 → c v ≤ 1)
    → (v : ℕ) → 0 < v
    → v ≤ 9
    → c v ≡ 1
full_ones c nine none_empty small = full_at c nine none_empty (record {
  s1 = small 1 (omega arith) (omega arith);
  s2 = small 2 (omega arith) (omega arith);
  s3 = small 3 (omega arith) (omega arith);
  s4 = small 4 (omega arith) (omega arith);
  s5 = small 5 (omega arith) (omega arith);
  s6 = small 6 (omega arith) (omega arith);
  s7 = small 7 (omega arith) (omega arith);
  s8 = small 8 (omega arith) (omega arith);
  s9 = small 9 (omega arith) (omega arith);
})

judge_lem :
    (xs seen : List ℕ)
    → Holds seen (λ v. count v xs)
    → total (λ v. count v xs) ≡ 9
    → (r : ℕ) × (judge seen ≡ some r) × Verdict xs r
unfolding judge
judge_lem xs seen (l, h) nine = elim (seen_twice_lem seen 9 1) [
  | inl (e, (v, a, b, big)) ↦ (
    invalid,
    rw e refl,
    twice v (omega arith) (omega arith) (omega (arith, h v (omega arith))) refl,
  )
  | inr (e, small) ↦
      let clean : IsClean xs = λ v a b. omega (arith, h v b, small v (omega arith) (omega arith)) in
      elim (dec_lt 0 (get_or seen 0 0)) [
        | yes some_empty ↦ (
          incomplete,
          rw (e, lt→ltb _ _ some_empty) refl,
          empty clean (omega (arith, h 0 (omega arith))) refl,
        )
        | no none_empty ↦ (
          valid,
          rw (e, le→ltb 0 (get_or seen 0 0) (omega arith))
              (ground (
                arith,
                h 0 (omega arith),
                h 1 (omega arith),
                full_ones (λ v. count v xs) nine (omega (arith, h 0 (omega arith))) clean 1
                    (omega arith) (omega arith),
                h 2 (omega arith),
                full_ones (λ v. count v xs) nine (omega (arith, h 0 (omega arith))) clean 2
                    (omega arith) (omega arith),
                h 3 (omega arith),
                full_ones (λ v. count v xs) nine (omega (arith, h 0 (omega arith))) clean 3
                    (omega arith) (omega arith),
                h 4 (omega arith),
                full_ones (λ v. count v xs) nine (omega (arith, h 0 (omega arith))) clean 4
                    (omega arith) (omega arith),
                h 5 (omega arith),
                full_ones (λ v. count v xs) nine (omega (arith, h 0 (omega arith))) clean 5
                    (omega arith) (omega arith),
                h 6 (omega arith),
                full_ones (λ v. count v xs) nine (omega (arith, h 0 (omega arith))) clean 6
                    (omega arith) (omega arith),
                h 7 (omega arith),
                full_ones (λ v. count v xs) nine (omega (arith, h 0 (omega arith))) clean 7
                    (omega arith) (omega arith),
                h 8 (omega arith),
                full_ones (λ v. count v xs) nine (omega (arith, h 0 (omega arith))) clean 8
                    (omega arith) (omega arith),
              )),
          full clean (omega (arith, h 0 (omega arith))) refl,
        )
      ]
]

-- On a grid of digits, the verdict on a row, a column or a block is the right one.
pub validity_of_lem :
    (position : ℕ → ℕ) (grid : List ℕ)
    → IsGrid grid
    → Inside position
    → (r : ℕ) × (validity_of position grid ≡ some r) × Verdict (values position grid 9 0) r
unfolding validity_of
validity_of_lem position grid g i =
    let (seen, e, (l, h)) =
      see_cells-Holds position grid 9 0 (replicate 10 0) (λ v. 0) g i (omega arith)
        (λ v. omega arith) (refl, λ v m. get_or-replicate 10 v 0) in
    let (r, e', verdict) =
      judge_lem (values position grid 9 0) seen (l, λ v m. h v m ∙ omega arith)
        (total-values position grid 9 0 g) in
    (r, rw e e', verdict)
