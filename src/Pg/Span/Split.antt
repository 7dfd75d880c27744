-- ===== src/Pg/Span/Split.antt =====
-- Where a span is split, what trimming leaves, and when two spans are equal.
use native.Mathlib.Numerals.{add-one}
use c_fs_subscriber.Base.{
  ◌==◌, if◌then◌else◌, ==_iff, Bool-cases, length, All, ◌>>=◌, ℕ, ◌+◌, ◌≡◌, refl, ap, ◌↔◌, ◌⊎◌, inl,
  inr, Bool, true, false, Option, none, some, [], ◌∷◌, ◌++◌, arith, ℕ_discrete,
}
use c_fs_subscriber.Pg.Char.{is_space}
use c_fs_subscriber.Pg.Span.{Span, cut, index_first, split_at_first, trim_left, memcmp_eq, eq}

-- Every byte differs from `needle`.
abbrev pub Lacks : ℕ → Span → Type 0
Lacks needle = All (λ c. (c == needle) ≡ false)

-- A split before the first `needle`, or no split of a span that has none.
abbrev pub SplitsFirst : ℕ → Span → Bool × Span × Span → Type 0
SplitsFirst needle s (true, left, right) =
    (s ≡ left ++ right) × Lacks needle left × ((t : Span) × (right ≡ needle ∷ t))
SplitsFirst needle s (false, left, right) = (left ≡ s) × (right ≡ []) × Lacks needle s

index_first-SplitsFirst :
    (s : Span) (needle : ℕ) → SplitsFirst needle s (cut s (index_first needle s))
unfolding index_first
index_first-SplitsFirst [] needle = (refl, refl, tt)
index_first-SplitsFirst (c ∷ s) needle =
    go (index_first needle s) (index_first-SplitsFirst s needle) (Bool-cases (c == needle))
  where
    go :
        (o : Option ℕ)
        → SplitsFirst needle s (cut s o)
        → (((c == needle) ≡ true) ⊎ ((c == needle) ≡ false))
        → SplitsFirst needle
            (c ∷ s)
            (cut (c ∷ s) (if c == needle then some 0 else (o >>= λ i. some (i + 1))))
    go o h (inl e) = rw e (refl, tt, (s, ap (λ x. x ∷ s) ((==_iff c needle).0 e)))
    go none h (inr e) = rw e (refl, refl, (e, h.2))
    go (some i) h (inr e) = rw (e, add-one i) (ap (◌∷◌ c) h.0, (e, h.1), h.2)

-- `pg_span_split_at_first` finds the first `needle`: what stands before it has none, it is the
-- first byte of the right part, and the two parts make up the span. It fails only on a span that
-- has none, and then the left part is the whole span.
pub split_at_first_lem : (s : Span) (needle : ℕ) → SplitsFirst needle s (split_at_first s needle)
unfolding split_at_first
split_at_first_lem s needle = index_first-SplitsFirst s needle

memcmp_eq_iff : (a b : Span) → length a ≡ length b → (memcmp_eq a b ≡ true) ↔ (a ≡ b)
unfolding memcmp_eq
memcmp_eq_iff [] [] e = (λ _. refl, λ _. refl)
memcmp_eq_iff [] (y ∷ b) e = absurd (omega arith)
memcmp_eq_iff (x ∷ a) [] e = absurd (omega arith)
memcmp_eq_iff (x ∷ a) (y ∷ b) e = ground (arith, memcmp_eq_iff a b (omega arith))

-- `pg_span_eq` answers whether two spans hold the same bytes.
eq_iff : (a b : Span) → (eq a b ≡ true) ↔ (a ≡ b)
unfolding eq
eq_iff a b = elim (ℕ_discrete (length a) (length b)) [
  | yes e ↦ ground (arith, memcmp_eq_iff a b e)
  | no e ↦ (
    λ h. absurd (e ((==_iff (length a) (length b)).0 (ground arith))),
    λ h. absurd (e (ap length h)),
  )
]

-- What `pg_span_trim_left` leaves is a tail of the span that does not begin with a space, and only
-- spaces were taken.
pub trim_left_lem :
    (s : Span)
    → (front : Span) × (s ≡ front ++ trim_left s)
      × All (λ c. is_space c ≡ true) front
      × ((c : ℕ) (t : Span) → trim_left s ≡ c ∷ t → is_space c ≡ false)
unfolding trim_left
trim_left_lem [] = ([], refl, tt, λ c t e. cc)
trim_left_lem (c ∷ s) = elim (Bool-cases (is_space c)) [
  | inl e ↦
      let (front, h, k, l) = trim_left_lem s in (c ∷ front, rw e (ap (◌∷◌ c) h), (e, k), rw e l)
  | inr e ↦ ([], rw e refl, tt, rw e (λ d t h. ground arith))
]
