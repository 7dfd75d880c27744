-- ===== src/Sudoku/Brute/Check.antt =====
-- The product of primes that the checks compute, and what it says of the nine cells.
use c_fs_subscriber.Base.{
  ◌==◌, if◌then◌else◌, All, ℕ, zero, suc, ◌+◌, ◌*◌, ◌≤◌, ◌<◌, ◌≡◌, refl, sym, ap, ap₂, ◌∙◌, subst,
  ◌↔◌, List, [], ◌∷◌, arith, ℕ_discrete,
}
use native.Mathlib.Nat.{mul_left_comm, mul_assoc}
use c_fs_subscriber.Sudoku.Brute.{filled_id}
use c_fs_subscriber.Sudoku.Count.{count, IsClean}
use c_fs_subscriber.Sudoku.Verdict.{total, full_ones}
use c_fs_subscriber.Sudoku.Brute.Primes.{prime, product, occurs}

record Positive (c : ℕ → ℕ) : Type 0 where
  p1 : 0 < c 1
  p2 : 0 < c 2
  p3 : 0 < c 3
  p4 : 0 < c 4
  p5 : 0 < c 5
  p6 : 0 < c 6
  p7 : 0 < c 7
  p8 : 0 < c 8
  p9 : 0 < c 9

-- Nine values, among which each digit is: no digit is there twice.
once : (c : ℕ → ℕ) → total c ≡ 9 → Positive c → (v : ℕ) → 0 < v → v ≤ 9 → c v ≤ 1
once c nine s zero p q = absurd (omega arith)
once c nine s (suc zero) p q = omega arith
once c nine s (suc (suc zero)) p q = omega arith
once c nine s (suc (suc (suc zero))) p q = omega arith
once c nine s (suc (suc (suc (suc zero)))) p q = omega arith
once c nine s (suc (suc (suc (suc (suc zero))))) p q = omega arith
once c nine s (suc (suc (suc (suc (suc (suc zero)))))) p q = omega arith
once c nine s (suc (suc (suc (suc (suc (suc (suc zero))))))) p q = omega arith
once c nine s (suc (suc (suc (suc (suc (suc (suc (suc zero)))))))) p q = omega arith
once c nine s (suc (suc (suc (suc (suc (suc (suc (suc (suc zero))))))))) p q = omega arith
once c nine s (suc (suc (suc (suc (suc (suc (suc (suc (suc (suc v)))))))))) p q =
    absurd (omega arith)

none_empty : (c : ℕ → ℕ) → total c ≡ 9 → Positive c → c 0 ≡ 0
none_empty c nine s = omega arith

abbrev power : ℕ → ℕ → ℕ
power b zero = 1
power b (suc k) = b * power b k

-- the product of the primes below the `n`th, each as often as its value occurs
abbrev powers : ℕ → (ℕ → ℕ) → ℕ
powers zero c = 1
powers (suc n) c = powers n c * power (prime n) (c n)

powers-other :
    (n x : ℕ) (c : ℕ → ℕ) → n ≤ x → powers n (λ v. (if x == v then 1 else 0) + c v) ≡ powers n c
powers-other zero x c l = refl
powers-other (suc n) x c l =
    ap₂ (λ a b. a * power (prime n) b) (powers-other n x c (omega arith)) (ground arith)

powers-add :
    (n x : ℕ) (c : ℕ → ℕ)
    → x < n
    → powers n (λ v. (if x == v then 1 else 0) + c v) ≡ prime x * powers n c
powers-add zero x c l = absurd (omega arith)
powers-add (suc n) x c l = elim (ℕ_discrete x n) [
  | yes e ↦
      subst
        (λ y. powers (suc n) (λ v. (if y == v then 1 else 0) + c v) ≡ prime y * powers (suc n) c)
        (sym e)
        (ap₂ (λ a b. a * power (prime n) b) (powers-other n n c (omega arith)) (one_more n (c n))
          ∙ mul_left_comm (powers n c) (prime n) (power (prime n) (c n)))
  | no e ↦
      ap₂ (λ a b. a * power (prime n) b) (powers-add n x c (omega arith)) (ground arith)
      ∙ mul_assoc (prime x) (powers n c) (power (prime n) (c n))
]
  where
    one_more : (n k : ℕ) → (if n == n then 1 else 0) + k ≡ suc k
    one_more n k = ground arith

product-powers :
    (xs : List ℕ) (id : ℕ) → All (λ x. x ≤ 9) xs → product xs id ≡ id * powers 10 (λ v. count v xs)
product-powers [] id w = omega arith
product-powers (x ∷ xs) id (h, w) =
    product-powers xs (id * prime x) w
    ∙ mul_assoc id (prime x) (powers 10 (λ v. count v xs))
    ∙ ap (λ t. id * t) (sym (powers-add 10 x (λ v. count v xs) (omega arith)))

powers-ones : (c : ℕ → ℕ) → c 0 ≡ 0 → ((v : ℕ) → 0 < v → v ≤ 9 → c v ≡ 1) → powers 10 c ≡ filled_id
powers-ones c z o =
    rw
      (
        z,
        o 1 (omega arith) (omega arith),
        o 2 (omega arith) (omega arith),
        o 3 (omega arith) (omega arith),
        o 4 (omega arith) (omega arith),
        o 5 (omega arith) (omega arith),
        o 6 (omega arith) (omega arith),
        o 7 (omega arith) (omega arith),
        o 8 (omega arith) (omega arith),
        o 9 (omega arith) (omega arith),
      )
      refl

-- The product of nine values is the full one exactly where no cell is empty and no digit stands twice.
pub product_iff :
    (xs : List ℕ)
    → All (λ x. x ≤ 9) xs
    → total (λ v. count v xs) ≡ 9
    → (product xs 1 ≡ filled_id) ↔ ((count 0 xs ≡ 0) × IsClean xs)
product_iff xs w nine = (
  λ e. let s = positive e in (none_empty (λ v. count v xs) nine s, once (λ v. count v xs) nine s),
  λ (z, clean).
      product-powers xs 1 w
      ∙ omega (arith, powers-ones (λ v. count v xs) z (full_ones (λ v. count v xs) nine z clean)),
)
  where
    positive : product xs 1 ≡ filled_id → Positive (λ v. count v xs)
    positive e = record {
      p1 = occurs 0 xs (omega arith) w e;
      p2 = occurs 1 xs (omega arith) w e;
      p3 = occurs 2 xs (omega arith) w e;
      p4 = occurs 3 xs (omega arith) w e;
      p5 = occurs 4 xs (omega arith) w e;
      p6 = occurs 5 xs (omega arith) w e;
      p7 = occurs 6 xs (omega arith) w e;
      p8 = occurs 7 xs (omega arith) w e;
      p9 = occurs 8 xs (omega arith) w e;
    }
