-- ===== src/Pg/Bitarray/Scan.antt =====
-- The loops over a bit array: counting, and testing all bits.
use c_fs_subscriber.Base.{
  ltb, leb, ◌==◌, if◌then◌else◌, Bool-cases, ℕ, zero, suc, ◌+◌, ◌≤◌, ◌<◌, ◌≡◌, refl, sym, ap, ◌∙◌,
  ◌≢◌, ◌↔◌, inl, inr, Bool, true, false, not, ◌&&◌, Option, some, arith, ℕ_discrete,
}
use c_fs_subscriber.Pg.Bitarray.{
  Bitarray, len, get, set, count_set_from, count_set, count_unset_from, count_unset, is_all_from,
  is_all_set, is_all_unset,
}
use c_fs_subscriber.Pg.Bitarray.Bits.{IsValid, set-Updates, bit, get_lem, AllBits}

-- How many of the `n` indices from `i` on satisfy `f`.
pub tally : (ℕ → Bool) → ℕ → ℕ → ℕ
tally f i zero = 0
tally f i (suc n) = (if f i then 1 else 0) + tally f (i + 1) n

pub tally-not : (f : ℕ → Bool) (i n : ℕ) → tally f i n + tally (λ k. not (f k)) i n ≡ n
unfolding tally
tally-not f i zero = omega arith
tally-not f i (suc n) = ground (arith, tally-not f (i + 1) n)

tally_change :
    (f g : ℕ → Bool) (k : ℕ)
    → ((j : ℕ) → g j ≡ (if k == j then true else f j))
    → f k ≡ false
    → (i n : ℕ)
    → tally g i n ≡ (if leb i k && ltb k (i + n) then suc (tally f i n) else tally f i n)
unfolding tally
tally_change f g k h e i zero = ground arith
tally_change f g k h e i (suc n) = ground (arith, tally_change f g k h e (i + 1) n, h i)

count_set_from_lem :
    {b : Bitarray} (n i res : ℕ)
    → IsValid b
    → i + n ≤ len b
    → count_set_from b n i res ≡ some (res + tally (bit b) i n)
unfolding len count_set_from tally
count_set_from_lem zero i res v p = ap some (omega arith)
count_set_from_lem {b} (suc n) i res v p = rw (get_lem i v (omega arith)) (
    count_set_from_lem n (i + 1) (res + (if bit b i then 1 else 0)) v (omega arith)
    ∙ ap some (omega arith))

count_unset_from_lem :
    {b : Bitarray} (n i res : ℕ)
    → IsValid b
    → i + n ≤ len b
    → count_unset_from b n i res ≡ some (res + tally (λ k. not (bit b k)) i n)
unfolding len count_unset_from tally
count_unset_from_lem zero i res v p = ap some (omega arith)
count_unset_from_lem {b} (suc n) i res v p = rw (get_lem i v (omega arith)) (
    count_unset_from_lem n (i + 1) (res + (if bit b i then 0 else 1)) v (omega arith)
    ∙ ground arith)

zero_add_some : (n : ℕ) → some (0 + n) ≡ some n
zero_add_some n = let z : 0 + n ≡ n = omega arith in ap some z

-- The two counts are those of the bits in range that are set and that are not.
pub count_lem :
    {b : Bitarray}
    → IsValid b
    → (count_set b ≡ some (tally (bit b) 0 (len b)))
      × (count_unset b ≡ some (tally (λ k. not (bit b k)) 0 (len b)))
unfolding count_set count_unset
count_lem {b} v = (
  count_set_from_lem (len b) 0 0 v (omega arith) ∙ zero_add_some _,
  count_unset_from_lem (len b) 0 0 v (omega arith) ∙ zero_add_some _,
)

-- The two counts of a valid array add up to the number of bits.
count_set-add-count_unset :
    {b : Bitarray} (m n : ℕ)
    → IsValid b
    → count_set b ≡ some m
    → count_unset b ≡ some n
    → m + n ≡ len b
count_set-add-count_unset {b} m n v p q = ground (arith, count_lem v, tally-not (bit b) 0 (len b))

-- In a valid array, setting a bit in range that is not set adds one to the number of set bits.
count_set-set :
    {b : Bitarray} (i m : ℕ)
    → IsValid b
    → i ≤ b.max_index
    → get b i ≡ some false
    → count_set b ≡ some m
    → (b' : Bitarray) × (set b i ≡ some b') × (count_set b' ≡ some (m + 1))
count_set-set {b} i m v p e c =
    let (b', s, u) = set-Updates i v p in
    let clear : bit b i ≡ false = cc (get_lem i v p) in
    let before = (count_lem v).0 in
    let after = (count_lem u.valid).0 in
    let changed = tally_change (bit b) (bit b') i u.bits clear 0 (len b) in
    (b', s, after ∙ unfold len in ground (arith, before, changed, u.same_max))

-- A test of a stretch of bits that ends, and passes exactly when they all equal `want`.
abbrev pub Decides : Option Bool → Type 0 → Type 0
Decides o P = (r : Bool) × (o ≡ some r) × ((r ≡ true) ↔ P)

abbrev AllFrom : Bool → Bitarray → ℕ → ℕ → Type 0
AllFrom want b i n = (j : ℕ) → i ≤ j → j < i + n → bit b j ≡ want

abbrev hits : Bool → Bool → Bool
hits want x = if want then x else not x

hits→eq : (want x : Bool) → hits want x ≡ true → x ≡ want
hits→eq true x h = h
hits→eq false true h = sym h
hits→eq false false h = refl

misses→ne : (want x : Bool) → hits want x ≡ false → x ≢ want
misses→ne want x h e = ground arith

AllFrom-suc :
    (b : Bitarray) (want : Bool) (i n : ℕ)
    → bit b i ≡ want
    → AllFrom want b (i + 1) n
    → AllFrom want b i (suc n)
AllFrom-suc b want i n here rest j p q = elim (ℕ_discrete i j) [
  | yes e ↦ rw e at here
  | no e ↦ rest j (omega arith) (omega arith)
]

is_all_from_lem :
    {b : Bitarray} (want : Bool) (n i : ℕ)
    → IsValid b
    → i + n ≤ len b
    → Decides (is_all_from want b n i) (AllFrom want b i n)
unfolding len is_all_from
is_all_from_lem want zero i v p = (true, refl, (λ _ j q r. absurd (omega arith), λ _. refl))
is_all_from_lem {b} want (suc n) i v p =
    let (r, e, h) = is_all_from_lem want n (i + 1) v (omega arith) in
    let got = get_lem i v (omega arith) in
    elim (Bool-cases (hits want (bit b i))) [
      | inl hit ↦ (
        r,
        rw (got, hit) e,
        (
          λ t. AllFrom-suc b want i n (hits→eq want (bit b i) hit) (h.0 t),
          λ all. h.1 (λ j q s. all j (omega arith) (omega arith)),
        ),
      )
      | inr miss ↦ (
        false,
        rw (got, miss) refl,
        (
          λ t. cc,
          λ all. absurd (misses→ne want (bit b i) miss (all i (omega arith) (omega arith))),
        ),
      )
    ]

AllBits-Decides :
    (b : Bitarray) {o : Option Bool} (want : Bool)
    → Decides o (AllFrom want b 0 (len b))
    → Decides o (AllBits want b)
unfolding len
AllBits-Decides b want (r, e, h) = (
  r,
  e,
  (λ t j p. h.0 t j (omega arith) (omega arith), λ all. h.1 (λ j p q. all j (omega arith))),
)

-- On a valid array `is_all_set` returns, and returns `true` exactly when every bit in range is
-- set; likewise `is_all_unset` for bits that are not set.
is_all_lem :
    {b : Bitarray}
    → IsValid b
    → Decides (is_all_set b) (AllBits true b) × Decides (is_all_unset b) (AllBits false b)
unfolding is_all_set is_all_unset
is_all_lem {b} v = (
  AllBits-Decides b true (is_all_from_lem true (len b) 0 v (omega arith)),
  AllBits-Decides b false (is_all_from_lem false (len b) 0 v (omega arith)),
)
