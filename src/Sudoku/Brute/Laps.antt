-- ===== src/Sudoku/Brute/Laps.antt =====
-- Every filling is reached: a place goes from 1 to 9 while those before it stand still, and then to 1 again.
use c_fs_subscriber.Base.{
  le→leb, eq→==, ne→==, length, get_or, set, get_elem?-eq-get_or, get_or-set_self, get_or-set_ne, ℕ,
  zero, suc, ◌+◌, ◌-◌, ◌≤◌, ◌<◌, ◌≡◌, refl, sym, ap, ◌∙◌, subst, some, List, [], ◌∷◌, arith,
  ℕ_discrete,
}
use c_fs_subscriber.Sudoku.Brute.{increment}
use c_fs_subscriber.Sudoku.Brute.Odometer.{
  IsVector, Reaches, done, step, Reaches-trans, Next, vector_ext, set-IsVector, increment_lem,
}

set_twice : (s : List ℕ) (n a b : ℕ) → set (set s n a) n b ≡ set s n b
set_twice [] n a b = refl
set_twice (x ∷ s) zero a b = refl
set_twice (x ∷ s) (suc n) a b = ap (λ t. x ∷ t) (set_twice s n a b)

set_same : (s : List ℕ) (n v : ℕ) → get_or s n 0 ≡ v → n < length s → set s n v ≡ s
set_same [] n v e l = refl
set_same (x ∷ s) zero v e l = ap (λ t. t ∷ s) (sym e)
set_same (x ∷ s) (suc n) v e l = ap (λ t. x ∷ t) (set_same s n v e (omega arith))

module _ (n : ℕ) (l : n < 81) where
  skip_zero :
      (s s' : List ℕ)
      → IsVector s
      → get_or s n 0 ≡ 0
      → increment s n ≡ some s'
      → increment s (suc n) ≡ some s'
  unfolding increment
  skip_zero s s' w z e =
      rw (get_elem?-eq-get_or s n 0 (omega (arith, w.size)), eq→== (get_or s n 0) 0 z) e

  add_one :
      (s : List ℕ) (d : ℕ)
      → IsVector s
      → get_or s n 0 ≡ d
      → 0 < d
      → d < 9
      → increment s (suc n) ≡ some (set s n (d + 1))
  unfolding increment
  add_one s d w e pos small =
      rw
        (
          get_elem?-eq-get_or s n 0 (omega (arith, w.size)),
          e,
          ne→== d 0 (λ z. omega arith),
          le→leb d 9 (omega arith),
          ne→== d 9 (λ z. omega arith),
        )
        refl

  wrap :
      (s s' : List ℕ)
      → IsVector s
      → get_or s n 0 ≡ 9
      → increment (set s n 1) n ≡ some s'
      → increment s (suc n) ≡ some s'
  unfolding increment
  wrap s s' w e h = rw (get_elem?-eq-get_or s n 0 (omega (arith, w.size)), e) h

  count_up :
      (k : ℕ) (s : List ℕ) (d : ℕ)
      → IsVector s
      → get_or s n 0 ≡ d
      → 0 < d
      → d + k ≤ 9
      → Reaches (suc n) (set s n (d + k)) s
  count_up zero s d w e pos small =
      subst (λ t. Reaches (suc n) t s)
        (sym (set_same s n (d + 0) (e ∙ omega arith) (omega (arith, w.size)))) done
  count_up (suc k) s d w e pos small =
      let s' = set s n (d + 1) in
      let w' = set-IsVector s n (d + 1) w l (omega arith) in
      let next =
        count_up k s' (d + 1) w' (get_or-set_self s n (d + 1) 0 (omega (arith, w.size)))
          (omega arith) (omega arith) in
      let sums : d + 1 + k ≡ d + suc k = omega arith in
      step s s' (add_one s d w e pos (omega arith)) (
        subst (λ t. Reaches (suc n) t s') (set_twice s n (d + 1) (d + 1 + k) ∙ ap (set s n) sums)
          next)

  -- From 1 to 9 and to 1 again, with one increment of the places before.
  lap :
      (s s' : List ℕ)
      → IsVector s
      → get_or s n 0 ≡ 1
      → increment s n ≡ some s'
      → Reaches (suc n) s' s
  lap s s' w e h =
      let s9 = set s n 9 in
      let back : set s9 n 1 ≡ s = set_twice s n 9 1 ∙ set_same s n 1 e (omega (arith, w.size)) in
      let turn : increment s9 (suc n) ≡ some s' =
        wrap s9 s' (set-IsVector s n 9 w l (omega arith))
          (get_or-set_self s n 9 0 (omega (arith, w.size))) (ap (λ t. increment t n) back ∙ h) in
      Reaches-trans (suc n) s' s9 s (count_up 8 s 1 w e (omega arith) (omega arith))
        (step s9 s' turn done)

  increment-Next : (s s' : List ℕ) → IsVector s → increment s n ≡ some s' → Next n s s'
  increment-Next s s' w h =
      let (s'', e, x) = increment_lem n s w (omega arith) in
      let same : s'' ≡ s' = cc in subst (Next n s) same x

  lift_zero : (t s : List ℕ) → Reaches n t s → IsVector s → get_or s n 0 ≡ 0 → Reaches (suc n) t s
  lift_zero t s done w z = done
  lift_zero t s (step s0 s' e p) w z =
      let x = increment-Next s s' w e in
      step s s' (skip_zero s s' w z e) (lift_zero t s' p x.vector (x.keeps n (omega arith) ∙ z))

  lift_one : (t s : List ℕ) → Reaches n t s → IsVector s → get_or s n 0 ≡ 1 → Reaches (suc n) t s
  lift_one t s done w z = done
  lift_one t s (step s0 s' e p) w z =
      let x = increment-Next s s' w e in
      Reaches-trans (suc n) t s' s (lap s s' w z e)
        (lift_one t s' p x.vector (x.keeps n (omega arith) ∙ z))

-- The same places are counted, and those from `n` on are the same.
pub record Alike (n : ℕ) (s t : List ℕ) : Type 0 where
  pub zero_too : (p : ℕ) → p < n → get_or s p 0 ≡ 0 → get_or t p 0 ≡ 0
  pub positive_too : (p : ℕ) → p < n → 0 < get_or s p 0 → 0 < get_or t p 0
  pub above : (p : ℕ) → n ≤ p → get_or s p 0 ≡ get_or t p 0

-- behind the turn of place `n`
Alike-turn :
    (n : ℕ) (s t u : List ℕ)
    → n < 81
    → IsVector s
    → IsVector t
    → Alike (suc n) s t
    → Next n (set s n 1) u
    → Alike n u (set t n 1)
Alike-turn n s t u l w v a x = record {
  zero_too = λ p h z. elim (ℕ_discrete (get_or s p 0) 0) [
    | yes k ↦ get_or-set_ne t {i = n} {j = p} 1 0 (λ e. omega arith) ∙ a.zero_too p (omega arith) k
    | no k ↦ absurd (
        omega (
          arith,
          x.positive_stays p
              (omega (arith, get_or-set_ne s {i = n} {j = p} 1 0 (λ e. omega arith))),
        ))
  ];
  positive_too = λ p h z. elim (ℕ_discrete (get_or s p 0) 0) [
    | yes k ↦
        absurd (
          omega
            (arith, x.zero_stays p (get_or-set_ne s {i = n} {j = p} 1 0 (λ e. omega arith) ∙ k)))
    | no k ↦ omega (
      arith,
      get_or-set_ne t {i = n} {j = p} 1 0 (λ e. omega arith),
      a.positive_too p (omega arith) (omega arith),
    )
  ];
  above = λ p h. elim (ℕ_discrete n p) [
    | yes e ↦
        subst (λ q. get_or u q 0 ≡ get_or (set t n 1) q 0) e
          (x.keeps n (omega arith)
            ∙ get_or-set_self s n 1 0 (omega (arith, w.size))
            ∙ sym (get_or-set_self t n 1 0 (omega (arith, v.size))))
    | no e ↦
        x.keeps p h
        ∙ get_or-set_ne s {i = n} {j = p} 1 0 e
        ∙ a.above p (omega arith)
        ∙ sym (get_or-set_ne t {i = n} {j = p} 1 0 e)
  ];
}

-- The increments of the first `n` places lead from any filling to any other one.
pub Alike-Reaches :
    (n : ℕ) (s t : List ℕ) → n ≤ 81 → IsVector s → IsVector t → Alike n s t → Reaches n t s
Alike-Reaches zero s t l w v a =
    let same : s ≡ t = vector_ext s t (w.size ∙ sym v.size) (λ p h. a.above p (omega arith)) in
    subst (λ u. Reaches 0 u s) same done
Alike-Reaches (suc n) s t l w v a = elim (ℕ_discrete (get_or s n 0) 0) [
  | yes z ↦
      lift_zero n (omega arith) t s
        (Alike-Reaches n s t (omega arith) w v (record {
          zero_too = λ p h. a.zero_too p (omega arith);
          positive_too = λ p h. a.positive_too p (omega arith);
          above = λ p h. elim (ℕ_discrete n p) [
            | yes e ↦
                subst (λ q. get_or s q 0 ≡ get_or t q 0) e (z ∙ sym (a.zero_too n (omega arith) z))
            | no e ↦ a.above p (omega arith)
          ];
        }))
        w z
  | no z ↦
      let d = get_or s n 0 in
      let e = get_or t n 0 in
      let nine : d + (9 - d) ≡ 9 = omega (arith, w.digits n) in
      let s9 = set s n 9 in
      let w1 = set-IsVector s n 1 w (omega arith) (omega arith) in
      let v1 = set-IsVector t n 1 v (omega arith) (omega arith) in
      let (u, run, x) = increment_lem n (set s n 1) w1 (omega arith) in
      let one : get_or u n 0 ≡ 1 =
        x.keeps n (omega arith) ∙ get_or-set_self s n 1 0 (omega (arith, w.size)) in
      let to_nine : Reaches (suc n) s9 s =
        subst (λ k. Reaches (suc n) (set s n k) s) nine
          (count_up n (omega arith) (9 - d) s d w refl (omega arith) (omega arith)) in
      let turn : increment s9 (suc n) ≡ some u =
        wrap n (omega arith) s9 u (set-IsVector s n 9 w (omega arith) (omega arith))
          (get_or-set_self s n 9 0 (omega (arith, w.size)))
          (ap (λ k. increment k n) (set_twice s n 9 1) ∙ run) in
      let across =
        lift_one n (omega arith) (set t n 1) u
          (Alike-Reaches n u (set t n 1) (omega arith) x.vector v1
            (Alike-turn n s t u (omega arith) w v a x))
          x.vector one in
      let e_pos : 0 < e = a.positive_too n (omega arith) (omega arith) in
      let there : 1 + (e - 1) ≡ e = omega arith in
      let last : set (set t n 1) n (1 + (e - 1)) ≡ t =
        set_twice t n 1 (1 + (e - 1))
        ∙ set_same t n (1 + (e - 1)) (sym there) (omega (arith, v.size)) in
      let up : Reaches (suc n) t (set t n 1) =
        subst (λ k. Reaches (suc n) k (set t n 1)) last
          (count_up n (omega arith) (e - 1) (set t n 1) 1 v1
            (get_or-set_self t n 1 0 (omega (arith, v.size))) (omega arith)
            (omega (arith, v.digits n))) in
      Reaches-trans (suc n) t s9 s to_nine
        (step s9 u turn (Reaches-trans (suc n) t (set t n 1) u across up))
]
