-- ===== src/Sudoku/Brute/Odometer.antt =====
-- Counting through all fillings: `increment_solution_vector` reaches every one of them from every other.
use c_fs_subscriber.Base.{
  le→leb, eq→==, ne→==, length, get_or, set, length-set, get_elem?-eq-get_or, get_or-set_self,
  get_or-set_ne, ℕ, zero, suc, ◌+◌, ◌≤◌, ◌<◌, ◌≡◌, refl, sym, ap₂, ◌∙◌, subst, some, List, [], ◌∷◌,
  arith, ℕ_discrete,
}
use c_fs_subscriber.Sudoku.Brute.{increment}

-- 81 places, none of them above 9; those with a 0 are not counted.
pub record IsVector (s : List ℕ) : Type 0 where
  pub size : length s ≡ 81
  pub digits : (p : ℕ) → get_or s p 0 ≤ 9

-- Steps of the increment of the first `n` places.
pub data Reaches (n : ℕ) (t : List ℕ) : List ℕ → Type 0 where
  done : Reaches n t t
  step : (s s' : List ℕ) → increment s n ≡ some s' → Reaches n t s' → Reaches n t s

pub Reaches-trans : (n : ℕ) (u t s : List ℕ) → Reaches n t s → Reaches n u t → Reaches n u s
Reaches-trans n u t s done q = q
Reaches-trans n u t s (step s0 s' e p) q = step s s' e (Reaches-trans n u t s' p q)

-- What an increment of the first `n` places keeps.
pub record Next (n : ℕ) (s s' : List ℕ) : Type 0 where
  pub vector : IsVector s'
  pub keeps : (p : ℕ) → n ≤ p → get_or s' p 0 ≡ get_or s p 0
  pub zero_stays : (p : ℕ) → get_or s p 0 ≡ 0 → get_or s' p 0 ≡ 0
  pub positive_stays : (p : ℕ) → 0 < get_or s p 0 → 0 < get_or s' p 0

pub vector_ext :
    (s t : List ℕ)
    → length s ≡ length t
    → ((p : ℕ) → p < length s → get_or s p 0 ≡ get_or t p 0)
    → s ≡ t
vector_ext [] [] e h = refl
vector_ext [] (y ∷ t) e h = absurd (omega arith)
vector_ext (x ∷ s) [] e h = absurd (omega arith)
vector_ext (x ∷ s) (y ∷ t) e h =
    ap₂ (λ a b. a ∷ b) (h 0 (omega arith))
      (vector_ext s t (omega arith) (λ p l. h (suc p) (omega arith)))

pub set-IsVector : (s : List ℕ) (n v : ℕ) → IsVector s → n < 81 → v ≤ 9 → IsVector (set s n v)
set-IsVector s n v w l small = record {
  size = length-set s n v ∙ w.size;
  digits = λ p. elim (ℕ_discrete n p) [
    | yes e ↦
        subst (λ t. get_or (set s n v) t 0 ≤ 9) e
          (omega (arith, get_or-set_self s n v 0 (omega (arith, w.size))))
    | no e ↦ omega (arith, get_or-set_ne s {i = n} {j = p} v 0 e, w.digits p)
  ];
}

-- a positive digit in place of another
pub set-Next :
    (m : ℕ) (s : List ℕ) (n v : ℕ)
    → IsVector s
    → n < 81
    → n < m
    → 0 < v
    → v ≤ 9
    → 0 < get_or s n 0
    → Next m s (set s n v)
set-Next m s n v w l below pos small old = record {
  vector = set-IsVector s n v w l small;
  keeps = λ p h. get_or-set_ne s {i = n} {j = p} v 0 (λ e. omega arith);
  zero_stays = λ p z. elim (ℕ_discrete n p) [
    | yes e ↦ absurd (omega (arith, subst (λ t. get_or s t 0 ≡ 0) (sym e) z))
    | no e ↦ get_or-set_ne s {i = n} {j = p} v 0 e ∙ z
  ];
  positive_stays = λ p z. elim (ℕ_discrete n p) [
    | yes e ↦
        subst (λ t. 0 < get_or (set s n v) t 0) e
          (omega (arith, get_or-set_self s n v 0 (omega (arith, w.size))))
    | no e ↦ omega (arith, get_or-set_ne s {i = n} {j = p} v 0 e)
  ];
}

Next-trans : (n m : ℕ) (s t u : List ℕ) → n ≤ m → Next m s t → Next n t u → Next m s u
Next-trans n m s t u l a b = record {
  vector = b.vector;
  keeps = λ p h. b.keeps p (omega arith) ∙ a.keeps p h;
  zero_stays = λ p z. b.zero_stays p (a.zero_stays p z);
  positive_stays = λ p z. b.positive_stays p (a.positive_stays p z);
}

-- An increment fails no assertion.
pub increment_lem :
    (n : ℕ) (s : List ℕ)
    → IsVector s
    → n ≤ 81
    → (s' : List ℕ) × (increment s n ≡ some s') × Next n s s'
unfolding increment
increment_lem zero s w l = (
  s,
  refl,
  record { vector = w; keeps = λ p h. refl; zero_stays = λ p z. z; positive_stays = λ p z. z },
)
increment_lem (suc n) s w l =
    let read = get_elem?-eq-get_or s n 0 (omega (arith, w.size)) in
    elim (ℕ_discrete (get_or s n 0) 0) [
      | yes z ↦
          let (s', e, x) = increment_lem n s w (omega arith) in
          (
            s',
            rw (read, eq→== (get_or s n 0) 0 z) e,
            record {
              vector = x.vector;
              keeps = λ p h. x.keeps p (omega arith);
              zero_stays = x.zero_stays;
              positive_stays = x.positive_stays;
            },
          )
      | no z ↦ elim (ℕ_discrete (get_or s n 0) 9) [
        | no k ↦ (
          set s n (get_or s n 0 + 1),
          rw
              (
                read,
                ne→== (get_or s n 0) 0 z,
                le→leb (get_or s n 0) 9 (w.digits n),
                ne→== (get_or s n 0) 9 k,
              )
              refl,
          set-Next (suc n) s n (get_or s n 0 + 1) w (omega arith) (omega arith) (omega arith)
              (omega (arith, w.digits n)) (omega arith),
        )
        | yes k ↦
            let x =
              set-Next (suc n) s n 1 w (omega arith) (omega arith) (omega arith) (omega arith)
                (omega arith) in
            let (s', e, x') = increment_lem n (set s n 1) x.vector (omega arith) in
            (
              s',
              rw
                  (
                    read,
                    ne→== (get_or s n 0) 0 z,
                    le→leb (get_or s n 0) 9 (w.digits n),
                    eq→== (get_or s n 0) 9 k,
                  )
                  e,
              Next-trans n (suc n) s (set s n 1) s' (omega arith) x x',
            )
      ]
    ]
