-- ===== src/Pg/Span/Signed.antt =====
-- `pg_span_parse_i64_decimal` of pg/pg.h.
use c_fs_subscriber.Base.{
  ltb, ◌==◌, if◌then◌else◌, ◌>>=◌, ℕ, ◌+◌, ◌-◌, ◌*◌, ◌^◌, Bool, true, false, not, Option, none,
  some, [], ◌∷◌,
}
use c_fs_subscriber.Pg.Char.{is_digit}
use c_fs_subscriber.Pg.Span.{Span, trim}

-- The loop over the digits: `*valid`, and the number. `none` is an overflow of `res`, which is undefined.
unfoldable pub i64_digits : Span → ℕ → Option (Bool × ℕ)
i64_digits [] res = some (true, res)
i64_digits (c ∷ s) res =
    let res' = res * 10 + (c - b'0') in
    let rest = i64_digits s res' in
    if not (is_digit c) then some (false, 0) else if ltb res' (2 ^ 63) then rest else none

-- the parser behind the trim: `*valid`, the sign, and the digits
unfoldable pub i64_signed : Span → Option (Bool × Bool × ℕ)
i64_signed [] = some (true, false, 0)
i64_signed (c ∷ s) =
    let digits : Bool → Span → Option (Bool × Bool × ℕ) =
      λ negative text. i64_digits text 0 >>= λ (valid, n). some (valid, negative, n) in
    if c == b'-' then digits true s else if c == b'+' then digits false s else digits false (c ∷ s)

unfoldable pub parse_i64_decimal : Span → Option (Bool × Bool × ℕ)
unfolding i64_signed
parse_i64_decimal s = i64_signed (trim s)
