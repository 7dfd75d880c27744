-- ===== src/Pg/Bitarray/Byte.antt =====
-- The three bit operations on a byte, at every byte and bit, by evaluation.
use c_fs_subscriber.Base.{
  ◌==◌, if◌then◌else◌, ℕ, zero, suc, ◌<◌, ◌≡◌, refl, Bool, true, false, not, ◌&&◌, arith,
  ℕ_discrete,
}
use c_fs_subscriber.Pg.Bitarray.{set_bit, unset_bit, test_bit}

-- The test passes at every number below the bound.
each : (ℕ → Bool) → ℕ → Bool
each test zero = true
each test (suc bound) = each test bound && test bound

each→at : (test : ℕ → Bool) {bound k : ℕ} → k < bound → each test bound ≡ true → test k ≡ true
unfolding each
each→at test {bound = zero} below passed = absurd (omega arith)
each→at test {bound = suc bound} {k} below passed = elim (ℕ_discrete k bound) [
  | yes e ↦ rw e (ground arith)
  | no e ↦ each→at test {bound = bound} {k = k} (omega arith) (ground arith)
]

abbrev same : Bool → Bool → Bool
same true b = b
same false b = not b

same→eq : (a b : Bool) → same a b ≡ true → a ≡ b
same→eq true true h = refl
same→eq true false h = cc
same→eq false true h = cc
same→eq false false h = refl

-- What the byte `f x k` holds at bit `j`, for all bytes and bits.
abbrev check : (ℕ → ℕ → ℕ) → Bool → Bool
check f v =
    each
      (λ k.
        each (λ j. each (λ x. same (test_bit (f x k) j) (if k == j then v else test_bit x j)) 256)
          8)
      8

check_sound :
    (f : ℕ → ℕ → ℕ) (v : Bool)
    → check f v ≡ true
    → (x k j : ℕ) → x < 256
    → k < 8
    → j < 8
    → test_bit (f x k) j ≡ (if k == j then v else test_bit x j)
check_sound f v h x k j p q r = same→eq _ _ (each→at _ p (each→at _ r (each→at _ q h)))

set_table : check set_bit true ≡ true
unfolding each set_bit test_bit
set_table = refl

unset_table : check unset_bit false ≡ true
unfolding each unset_bit test_bit
unset_table = refl

pub test_bit-set_bit :
    (x k j : ℕ)
    → x < 256
    → k < 8
    → j < 8
    → test_bit (set_bit x k) j ≡ (if k == j then true else test_bit x j)
test_bit-set_bit = check_sound set_bit true set_table

pub test_bit-unset_bit :
    (x k j : ℕ)
    → x < 256
    → k < 8
    → j < 8
    → test_bit (unset_bit x k) j ≡ (if k == j then false else test_bit x j)
test_bit-unset_bit = check_sound unset_bit false unset_table

ones_table : each (λ j. test_bit 0xff j && not (test_bit 0 j)) 8 ≡ true
unfolding each test_bit
ones_table = refl

pub test_bit-constant : (j : ℕ) → j < 8 → (test_bit 0xff j ≡ true) × (test_bit 0 j ≡ false)
test_bit-constant j p =
    let h = each→at (λ j. test_bit 0xff j && not (test_bit 0 j)) p ones_table in ground (arith, h)

pub set_bit-lt : (x k : ℕ) → set_bit x k < 256
unfolding set_bit
set_bit-lt x k = omega arith

pub unset_bit-lt : (x k : ℕ) → unset_bit x k < 256
unfolding unset_bit
unset_bit-lt x k = omega arith
