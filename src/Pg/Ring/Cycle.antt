-- ===== src/Pg/Ring/Cycle.antt =====
-- Stretches of a circular buffer: `cycle buf m h n` is the `n` bytes from index `h` on, each index
-- taken modulo `m`.
use native.Mathlib.Nat.{mod-mod, mod-add-mod, mod-eq_of_lt, mod-eq-sub-mod, mod-lt}
use c_fs_subscriber.Base.{
  length, get_elem?, get_or, set, take, drop, get_or-set_self, get_or-set_ne, ℕ, zero, suc, ◌+◌,
  ◌-◌, ◌%◌, ◌≤◌, ◌<◌, ◌≡◌, refl, sym, ap, ap₂, ◌∙◌, ◌≢◌, some, List, [], ◌∷◌, ◌++◌, arith, dec_lt,
}

unfoldable pub cycle : List ℕ → ℕ → ℕ → ℕ → List ℕ
cycle buf m h zero = []
cycle buf m h (suc n) = get_or buf (h % m) 0 ∷ cycle buf m (h + 1) n

pub length-cycle : (buf : List ℕ) (m h n : ℕ) → length (cycle buf m h n) ≡ n
unfolding cycle
length-cycle buf m h zero = refl
length-cycle buf m h (suc n) = ap suc (length-cycle buf m (h + 1) n)

mod_shift : (m h k : ℕ) → h % m ≡ k % m → (d : ℕ) → (h + d) % m ≡ (k + d) % m
mod_shift m h k e d = sym (mod-add-mod h m d) ∙ ap (λ t. (t + d) % m) e ∙ mod-add-mod k m d

pub cycle_mod : (buf : List ℕ) (m h k n : ℕ) → h % m ≡ k % m → cycle buf m h n ≡ cycle buf m k n
unfolding cycle
cycle_mod buf m h k zero e = refl
cycle_mod buf m h k (suc n) e =
    ap₂ ◌∷◌ (ap (λ i. get_or buf i 0) e) (cycle_mod buf m (h + 1) (k + 1) n (mod_shift m h k e 1))

pub cycle_wrap : (buf : List ℕ) (m h n : ℕ) → cycle buf m (h % m) n ≡ cycle buf m h n
cycle_wrap buf m h n = cycle_mod buf m (h % m) h n (mod-mod h m)

pub cycle_snoc :
    (buf : List ℕ) (m h n : ℕ)
    → cycle buf m h (suc n) ≡ cycle buf m h n ++ (get_or buf ((h + n) % m) 0 ∷ [])
unfolding cycle
cycle_snoc buf m h zero = let e : h ≡ h + 0 = omega arith in ap (λ k. get_or buf (k % m) 0 ∷ []) e
cycle_snoc buf m h (suc n) =
    let e : h + 1 + n ≡ h + suc n = omega arith in
    ap (◌∷◌ (get_or buf (h % m) 0)) (
      cycle_snoc buf m (h + 1) n ∙ ap (λ k. cycle buf m (h + 1) n ++ (get_or buf (k % m) 0 ∷ [])) e)

pub drop-cycle :
    (buf : List ℕ) (m h n k : ℕ) → drop k (cycle buf m h n) ≡ cycle buf m (h + k) (n - k)
unfolding cycle
drop-cycle buf m h n zero =
    let e : h ≡ h + 0 = omega arith in let z : n ≡ n - 0 = omega arith in ap₂ (cycle buf m) e z
drop-cycle buf m h zero (suc k) =
    let z : 0 ≡ 0 - suc k = omega arith in ap (cycle buf m (h + suc k)) z
drop-cycle buf m h (suc n) (suc k) =
    let e : h + 1 + k ≡ h + suc k = omega arith in
    let z : n - k ≡ suc n - suc k = omega arith in
    drop-cycle buf m (h + 1) n k ∙ ap₂ (cycle buf m) e z

pub take-cycle : (buf : List ℕ) (m h n k : ℕ) → k ≤ n → take k (cycle buf m h n) ≡ cycle buf m h k
unfolding cycle
take-cycle buf m h n zero p = refl
take-cycle buf m h zero (suc k) p = absurd (omega arith)
take-cycle buf m h (suc n) (suc k) p =
    ap (◌∷◌ (get_or buf (h % m) 0)) (take-cycle buf m (h + 1) n k (omega arith))

pub get_elem?-cycle :
    (buf : List ℕ) (m h n k : ℕ)
    → k < n
    → get_elem? (cycle buf m h n) k ≡ some (get_or buf ((h + k) % m) 0)
unfolding cycle
get_elem?-cycle buf m h zero k p = absurd (omega arith)
get_elem?-cycle buf m h (suc n) zero p =
    let e : h ≡ h + 0 = omega arith in ap (λ k. some (get_or buf (k % m) 0)) e
get_elem?-cycle buf m h (suc n) (suc k) p =
    let e : h + 1 + k ≡ h + suc k = omega arith in
    get_elem?-cycle buf m (h + 1) n k (omega arith) ∙ ap (λ j. some (get_or buf (j % m) 0)) e

-- Going less than once round does not come back to the start.
pub mod-ne : (m h d : ℕ) → 0 < d → d < m → (h + d) % m ≢ h % m
mod-ne m h d p q = elim (dec_lt (h % m + d) m) [
  | yes less ↦ omega (arith, mod-add-mod h m d, mod-eq_of_lt less)
  | no more ↦ omega (
    arith,
    mod-add-mod h m d,
    mod-eq-sub-mod {n = h % m + d} {m = m} (omega arith),
    mod-eq_of_lt {n = h % m + d - m} {m = m} (omega arith),
  )
]

-- A write at an index that the stretch does not reach leaves it alone.
pub cycle-set :
    (buf : List ℕ) (m h n i x : ℕ)
    → ((k : ℕ) → k < n → (h + k) % m ≢ i)
    → cycle (set buf i x) m h n ≡ cycle buf m h n
unfolding cycle
cycle-set buf m h zero i x far = refl
cycle-set buf m h (suc n) i x far =
    ap₂ ◌∷◌ (get_or-set_ne buf x 0 (λ e. far 0 (omega arith) (shift 0 h (omega arith) ∙ sym e))) (
      cycle-set buf m (h + 1) n i x
        (λ k p e. far (suc k) (omega arith) (shift (suc k) (h + 1 + k) (omega arith) ∙ e)))
  where
    shift : (k j : ℕ) → h + k ≡ j → (h + k) % m ≡ j % m
    shift k j e = ap (λ t. t % m) e

pub cycle-set_end :
    (buf : List ℕ) (m h n x : ℕ)
    → length buf ≡ m
    → n < m
    → cycle (set buf ((h + n) % m) x) m h (suc n) ≡ cycle buf m h n ++ (x ∷ [])
cycle-set_end buf m h n x len p =
    cycle_snoc (set buf i x) m h n
    ∙ ap₂ (λ xs y. xs ++ (y ∷ []))
        (cycle-set buf m h n i x (λ k q e.
          mod-ne m (h + k) (n - k) (omega arith) (omega arith)
            (ap (λ j. j % m) (omega arith) ∙ sym e)))
        (get_or-set_self buf i x 0 (omega (arith, mod-lt (h + n) {m = m} (omega arith))))
  where
    i : ℕ
    i = (h + n) % m

pub cycle_cons :
    (buf : List ℕ) (m h n : ℕ)
    → 0 < n
    → h < m
    → cycle buf m h n ≡ get_or buf h 0 ∷ cycle buf m (h + 1) (n - 1)
unfolding cycle
cycle_cons buf m h zero p q = absurd (omega arith)
cycle_cons buf m h (suc n) p q =
    let e : n ≡ suc n - 1 = omega arith in
    ap₂ (λ i k. get_or buf i 0 ∷ cycle buf m (h + 1) k) (mod-eq_of_lt q) e

pub cycle_last :
    (buf : List ℕ) (m h n : ℕ)
    → 0 < n
    → cycle buf m h n ≡ cycle buf m h (n - 1) ++ (get_or buf ((h + (n - 1)) % m) 0 ∷ [])
cycle_last buf m h zero p = absurd (omega arith)
cycle_last buf m h (suc n) p =
    let e : n ≡ suc n - 1 = omega arith in
    cycle_snoc buf m h n ∙ ap (λ k. cycle buf m h k ++ (get_or buf ((h + k) % m) 0 ∷ [])) e

-- One step back round the buffer.
pub front_shift : (h m : ℕ) → h < m → ((h + (m - 1)) % m + 1) % m ≡ h % m
front_shift h m p =
    let e : h + (m - 1) + 1 ≡ h + m = omega arith in
    mod-add-mod (h + (m - 1)) m 1
    ∙ ap (λ k. k % m) e
    ∙ mod-eq-sub-mod {n = h + m} {m = m} (omega arith)
    ∙ ap (λ k. k % m) (omega arith)

pub cycle-set_start :
    (buf : List ℕ) (m h n x : ℕ)
    → h < m
    → n < m
    → cycle (set buf ((h + (m - 1)) % m) x) m h n ≡ cycle buf m h n
cycle-set_start buf m h n x p q = cycle-set buf m h n ((h + (m - 1)) % m) x (λ k r e.
    mod-ne m (h + k) (m - 1 - k) (omega arith) (omega arith)
      (let s : h + k + (m - 1 - k) ≡ h + (m - 1) = omega arith in ap (λ j. j % m) s ∙ sym e))

pub cycle_empty : (buf : List ℕ) (m h n : ℕ) → ¬ (0 < n) → cycle buf m h n ≡ []
unfolding cycle
cycle_empty buf m h zero p = refl
cycle_empty buf m h (suc n) p = absurd (omega arith)
