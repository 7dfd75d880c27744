-- ===== src/Pg/Span/Number.antt =====
-- The digits that `pg_span_parse_u64_decimal` reads, and the number that they write.
use c_fs_subscriber.Base.{
  Bool-cases, All, add64, mul64, ℕ, ◌+◌, ◌-◌, ◌*◌, ◌%◌, ◌^◌, ◌≡◌, ap, inl, inr, true, some, [], ◌∷◌,
  arith,
}
use c_fs_subscriber.Pg.Char.{is_digit}
use c_fs_subscriber.Pg.Span.{Span, u64_digits}

-- The number that the digits write, over the integers.
unfoldable pub value : Span → ℕ → ℕ
value [] acc = acc
value (c ∷ s) acc = value s (acc * 10 + (c - b'0'))

abbrev pub AllDigits : Span → Type 0
AllDigits = All (λ c. is_digit c ≡ true)

-- On digits the loop gives the number that they write, reduced modulo 2^64: a number that does not
-- fit wraps, and is not refused.
pub u64_digits-value :
    (s : Span) (res acc : ℕ)
    → AllDigits s
    → res ≡ acc % 2 ^ 64
    → u64_digits s res ≡ some (value s acc % 2 ^ 64)
unfolding u64_digits value
u64_digits-value [] res acc d e = ap some e
u64_digits-value (c ∷ s) res acc (h, d) e =
    rw h
      (u64_digits-value s (add64 (mul64 res 10) (c - b'0')) (acc * 10 + (c - b'0')) d (omega arith))

-- The loop refuses exactly the spans with a byte that is no digit.
pub u64_digits-AllDigits : (s : Span) (res n : ℕ) → u64_digits s res ≡ some n → AllDigits s
unfolding u64_digits
u64_digits-AllDigits [] res n e = tt
u64_digits-AllDigits (c ∷ s) res n e = elim (Bool-cases (is_digit c)) [
  | inl h ↦ (h, u64_digits-AllDigits s (add64 (mul64 res 10) (c - b'0')) n (ground arith))
  | inr h ↦ ground arith
]
