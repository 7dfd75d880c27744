-- ===== src/Pg/Span/Shows.antt =====
-- What a text that `pg_span_parse_i64_decimal` accepts says, without the parser.
use c_fs_subscriber.Base.{
  ◌==◌, ==_iff, Bool-cases, length, get_or, take, All, take_all, ◌>>=◌, ℕ, zero, suc, ◌+◌, ◌-◌, ◌*◌,
  ◌≤◌, ◌<◌, ◌≡◌, refl, sym, ap, ◌∙◌, ◌⊎◌, inl, inr, Bool, true, false, Option, none, some, [], ◌∷◌,
  ◌++◌, append-nil, append_assoc, arith,
}
use c_fs_subscriber.Pg.Char.{is_digit, is_space}
use c_fs_subscriber.Pg.Span.{Span, trim, trim_left, trim_right, trim_right_from}
use c_fs_subscriber.Pg.Span.Number.{AllDigits, value}
use c_fs_subscriber.Pg.Span.Signed.{i64_digits, i64_signed, parse_i64_decimal}
use c_fs_subscriber.Pg.Span.Split.{trim_left_lem}

abbrev pub AllSpaces : Span → Type 0
AllSpaces = All (λ c. is_space c ≡ true)

-- The text of a number: digits that write `n`, perhaps behind a plus, between spaces.
pub record Shows (text : Span) (n : ℕ) : Type 0 where
  pub before : Span
  pub plus : Span
  pub digits : Span
  pub behind : Span
  pub whole : text ≡ before ++ ((plus ++ digits) ++ behind)
  pub no_text_before : AllSpaces before
  pub no_text_behind : AllSpaces behind
  pub sign : (plus ≡ []) ⊎ (plus ≡ b'+' ∷ [])
  pub all_digits : AllDigits digits
  pub writes : value digits 0 ≡ n

take_snoc : (n : ℕ) (s : Span) → n < length s → take (suc n) s ≡ take n s ++ (get_or s n 0 ∷ [])
take_snoc n [] h = absurd (omega arith)
take_snoc zero (c ∷ s) h = refl
take_snoc (suc n) (c ∷ s) h = ap (◌∷◌ c) (take_snoc n s (omega arith))

AllSpaces-append : (s t : Span) → AllSpaces s → AllSpaces t → AllSpaces (s ++ t)
AllSpaces-append [] t h k = k
AllSpaces-append (c ∷ s) t h k = (h.0, AllSpaces-append s t h.1 k)

trim_right_from_lem :
    (n : ℕ) (s : Span)
    → n ≤ length s
    → (back : Span) × (take n s ≡ trim_right_from n s ++ back) × AllSpaces back
unfolding trim_right_from
trim_right_from_lem zero s h = ([], refl, tt)
trim_right_from_lem (suc n) s h = elim (Bool-cases (is_space (get_or s n 0))) [
  | inl e ↦
      let (back, same, spaces) = trim_right_from_lem n s (omega arith) in
      (
        back ++ (get_or s n 0 ∷ []),
        rw e (
            take_snoc n s h
            ∙ ap (λ t. t ++ (get_or s n 0 ∷ [])) same
            ∙ append_assoc (trim_right_from n s) back (get_or s n 0 ∷ [])),
        AllSpaces-append back (get_or s n 0 ∷ []) spaces (e, tt),
      )
  | inr e ↦ ([], rw e (sym (append-nil (take (suc n) s))), tt)
]

trim_lem :
    (s : Span)
    → (front back : Span) × (s ≡ front ++ (trim s ++ back)) × AllSpaces front × AllSpaces back
unfolding trim trim_right
trim_lem s =
    let (front, cut, spaces, _) = trim_left_lem s in
    let t = trim_left s in
    let (back, same, spaces') = trim_right_from_lem (length t) t (omega arith) in
    (
      front,
      back,
      cut ∙ ap (λ u. front ++ u) (sym (take_all (length t) t (omega arith)) ∙ same),
      spaces,
      spaces',
    )

i64_digits-value :
    (s : Span) (res n : ℕ) → i64_digits s res ≡ some (true, n) → AllDigits s × (value s res ≡ n)
unfolding i64_digits value
i64_digits-value [] res n h = (tt, ground arith)
i64_digits-value (c ∷ s) res n h = elim (Bool-cases (is_digit c)) [
  | inr e ↦ absurd (ground arith)
  | inl e ↦ let (d, v) = i64_digits-value s (res * 10 + (c - b'0')) n (ground arith) in ((e, d), v)
]

-- digits, perhaps behind a plus
shows :
    (s front plus digits back : Span) (n : ℕ)
    → s ≡ front ++ ((plus ++ digits) ++ back)
    → AllSpaces front
    → AllSpaces back
    → (plus ≡ []) ⊎ (plus ≡ b'+' ∷ [])
    → i64_digits digits 0 ≡ some (true, n)
    → Shows s n
shows s front plus digits back n made f b p h =
    let (d, v) = i64_digits-value digits 0 n h in
    record {
      before = front;
      plus = plus;
      digits = digits;
      behind = back;
      whole = made;
      no_text_before = f;
      no_text_behind = b;
      sign = p;
      all_digits = d;
      writes = v;
    }

unsigned :
    (negative b : Bool) (n : ℕ) (o : Option (Bool × ℕ))
    → ◌>>=◌ {B = Bool × Bool × ℕ} o (λ (valid, m). some (valid, negative, m)) ≡ some (true, b, n)
    → (negative ≡ b) × (o ≡ some (true, n))
unsigned negative b n none h = cc
unsigned negative b n (some (valid, m)) h = (cc, cc)

signed-Shows :
    (s front back t : Span) (n : ℕ)
    → s ≡ front ++ (t ++ back)
    → AllSpaces front
    → AllSpaces back
    → i64_signed t ≡ some (true, false, n)
    → Shows s n
unfolding i64_signed
signed-Shows s front back [] n made f b h =
    shows s front [] [] back n made f b (inl refl) (unfold i64_digits in ground arith)
signed-Shows s front back (c ∷ t) n made f b h = elim (Bool-cases (c == b'-')) [
  | inl minus ↦ absurd (ground (arith, (unsigned true false n (i64_digits t 0) (rw minus at h)).0))
  | inr e ↦ elim (Bool-cases (c == b'+')) [
    | inl p ↦
        shows s front (c ∷ []) t back n made f b (inr (ap (λ d. d ∷ []) ((==_iff c b'+').0 p)))
          (unsigned false false n (i64_digits t 0) (rw (e, p) at h)).1
    | inr p ↦
        shows s front [] (c ∷ t) back n made f b (inl refl)
          (unsigned false false n (i64_digits (c ∷ t) 0) (rw (e, p) at h)).1
  ]
]

-- The parser accepts only the text of a number, and gives the number.
pub parse_i64_decimal-Shows :
    (s : Span) (n : ℕ) → parse_i64_decimal s ≡ some (true, false, n) → Shows s n
unfolding parse_i64_decimal
parse_i64_decimal-Shows s n h =
    let (front, back, made, f, b) = trim_lem s in signed-Shows s front back (trim s) n made f b h
