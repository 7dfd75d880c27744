-- ===== src/Sudoku/Brute/Primes.antt =====
-- A prime whose value does not occur does not divide the product.
use c_fs_subscriber.Base.{
  ltb, leb, ◌==◌, if◌then◌else◌, Bool-cases, get_or, All, ℕ, zero, suc, ◌+◌, ◌*◌, ◌/◌, ◌%◌, ◌≤◌,
  ◌<◌, ◌≡◌, refl, sym, ap, ◌∙◌, subst, inl, inr, Bool, true, false, not, ◌&&◌, ◌||◌, List, [], ◌∷◌,
  arith, dec_lt, ℕ_discrete,
}
use native.Mathlib.Nat.{mul_comm, mul_assoc, div-add-mod', mul-add-mod_self_right, mul-add, mod-lt}
use c_fs_subscriber.Sudoku.Brute.{primes, filled_id}
use c_fs_subscriber.Sudoku.Count.{count}

abbrev pub prime : ℕ → ℕ
prime v = get_or primes v 0

abbrev all_below : ℕ → (ℕ → Bool) → Bool
all_below zero f = true
all_below (suc n) f = all_below n f && f n

all_below-at : (n : ℕ) (f : ℕ → Bool) → all_below n f ≡ true → (i : ℕ) → i < n → f i ≡ true
all_below-at zero f h i l = absurd (omega arith)
all_below-at (suc n) f h i l = elim (Bool-cases (all_below n f)) [
  | inl a ↦ elim (ℕ_discrete i n) [
    | yes e ↦ subst (λ t. f t ≡ true) (sym e) (last a (f n) h)
    | no e ↦ all_below-at n f a i (omega arith)
  ]
  | inr a ↦ absurd (first a (f n) h)
]
  where
    last : {a : Bool} → a ≡ true → (b : Bool) → (a && b) ≡ true → b ≡ true
    last {a = true} e b k = k
    last {a = false} e b k = cc

    first : {a : Bool} → a ≡ false → (b : Bool) → (a && b) ≡ true → ⊥
    first {a = true} e b k = cc
    first {a = false} e b k = cc

-- The remainder by the prime of `v` stays positive over a factor that is another prime of the table.
abbrev stays : ℕ → ℕ → ℕ → Bool
stays v a x = a == 0 || (leb (prime v) a || (x == v || not ((a * prime x) % prime v == 0)))

stays_all : all_below 9 (λ w. all_below 23 (λ a. all_below 10 (λ x. stays (w + 1) a x))) ≡ true
stays_all = refl

mod-mul : (a q p : ℕ) → (a * q) % p ≡ (a % p * q) % p
mod-mul a q p =
    ap (λ t. t % p)
      (mul_comm a q
        ∙ ap (λ t. q * t) (sym (div-add-mod' a p))
        ∙ mul-add q (a / p * p) (a % p)
        ∙ ap (λ t. t + q * (a % p)) (sym (mul_assoc q (a / p) p)))
    ∙ mul-add-mod_self_right (q * (a / p)) p (q * (a % p))
    ∙ ap (λ t. t % p) (mul_comm q (a % p))

bounds_all : all_below 10 (λ v. ltb 0 (prime v) && leb (prime v) 23) ≡ true
bounds_all = refl

pub prime-bounds : (v : ℕ) → v ≤ 9 → (0 < prime v) × (prime v ≤ 23)
prime-bounds v h =
    split (prime v)
      (all_below-at 10 (λ v. ltb 0 (prime v) && leb (prime v) 23) bounds_all v (omega arith))
  where
    split : (p : ℕ) → (ltb 0 p && leb p 23) ≡ true → (0 < p) × (p ≤ 23)
    split p h = (ground arith, ground arith)

stays_lem :
    (a p m x v : ℕ)
    → 0 < a
    → a < p
    → ¬ (x ≡ v)
    → (a == 0 || (leb p a || (x == v || not (m == 0)))) ≡ true
    → 0 < m
stays_lem a p m x v pos l n h = ground arith

other : (x v c : ℕ) → (if x == v then 1 else 0) + c ≡ 0 → ¬ (x ≡ v) × (c ≡ 0)
other x v c h = (λ e. ground arith, ground arith)

-- the product of the primes of the values, from `id` on
abbrev pub product : List ℕ → ℕ → ℕ
product [] id = id
product (x ∷ xs) id = product xs (id * prime x)

-- A prime whose value does not occur does not divide the product.
product-mod :
    (v : ℕ) (xs : List ℕ) (id : ℕ)
    → v < 9
    → All (λ x. x ≤ 9) xs
    → count (v + 1) xs ≡ 0
    → 0 < id % prime (v + 1)
    → 0 < product xs id % prime (v + 1)
product-mod v [] id l w c p = p
product-mod v (x ∷ xs) id l (h, w) c p =
    let r = id % prime (v + 1) in
    let bounds = prime-bounds (v + 1) (omega arith) in
    let small : r < prime (v + 1) = mod-lt id bounds.0 in
    let table =
      all_below-at 9 (λ w. all_below 23 (λ a. all_below 10 (λ x. stays (w + 1) a x))) stays_all v
        l in
    let line =
      all_below-at 23 (λ a. all_below 10 (λ x. stays (v + 1) a x)) table r
        (omega (arith, small, bounds.1)) in
    let cell = all_below-at 10 (λ x. stays (v + 1) r x) line x (omega arith) in
    let (ne, rest) = other x (v + 1) (count (v + 1) xs) c in
    let next =
      stays_lem r (prime (v + 1)) ((r * prime x) % prime (v + 1)) x (v + 1) p small ne cell in
    product-mod v xs (id * prime x) l w rest
      (subst (λ t. 0 < t) (sym (mod-mul id (prime x) (prime (v + 1)))) next)

divides_all : all_below 9 (λ v. ltb 0 (1 % prime (v + 1)) && filled_id % prime (v + 1) == 0) ≡ true
divides_all = refl

-- A product that is the full one has each of the nine primes.
pub occurs :
    (v : ℕ) (xs : List ℕ)
    → v < 9
    → All (λ x. x ≤ 9) xs
    → product xs 1 ≡ filled_id
    → 0 < count (v + 1) xs
occurs v xs l w e = elim (dec_lt 0 (count (v + 1) xs)) [
  | yes h ↦ h
  | no h ↦ absurd (
      none_left (1 % prime (v + 1)) (filled_id % prime (v + 1))
        (all_below-at 9 (λ v. ltb 0 (1 % prime (v + 1)) && filled_id % prime (v + 1) == 0)
          divides_all v l)
        (λ p. subst (λ t. 0 < t % prime (v + 1)) e (product-mod v xs 1 l w (omega arith) p)))
]
  where
    none_left : (a b : ℕ) → (ltb 0 a && b == 0) ≡ true → (0 < a → 0 < b) → ⊥
    none_left a b h k = grind arith
