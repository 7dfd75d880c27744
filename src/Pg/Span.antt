-- ===== src/Pg/Span.antt =====
-- The views on bytes of pg/pg.h (`pg_span_t`). A span is the list of the bytes that it shows; one
-- that is moved over its bytes is a part of that list. `none` is a failed `assert`.
pub mod Split
pub mod Number
pub mod Signed
pub mod Shows
mod Tests
use c_fs_subscriber.Base.{
  leb, ◌==◌, if◌then◌else◌, length, get_or, take, drop, ◌>>=◌, ◌>>◌, assert, add64, mul64, ℕ, zero,
  suc, ◌+◌, ◌-◌, Bool, true, false, not, ◌&&◌, Option, none, some, List, [], ◌∷◌,
}
use c_fs_subscriber.Pg.Char.{to_lower, is_space, is_digit}

abbrev pub Span : Type 0
Span = List ℕ

-- the character, and `*more_chars`
unfoldable pub peek_left : Span → ℕ × Bool
peek_left [] = (0, false)
peek_left (c ∷ s) = (c, true)

unfoldable pub peek_right : Span → ℕ × Bool
peek_right [] = (0, false)
peek_right (c ∷ s) = (get_or (c ∷ s) (length s) 0, true)

unfoldable pub consume_left : Span → ℕ → Option Span
consume_left [] n = some []
consume_left (c ∷ s) n = do assert (leb n (length (c ∷ s))); some (drop n (c ∷ s))

unfoldable pub consume_right : Span → ℕ → Option Span
consume_right [] n = some []
consume_right (c ∷ s) n = do
  assert (leb n (length (c ∷ s)))
  some (take (length (c ∷ s) - n) (c ∷ s))

-- what the loop of `pg_span_split_at_first` finds: the index of the first `needle`
unfoldable pub index_first : ℕ → Span → Option ℕ
index_first needle [] = none
index_first needle (c ∷ s) =
    let later = index_first needle s in
    if c == needle then some 0 else (later >>= λ i. some (i + 1))

-- `found`, `*left` and `*right`, for the index at which the needle stands
abbrev pub cut : Span → Option ℕ → Bool × Span × Span
cut s none = (false, s, [])
cut s (some i) = (true, take i s, drop i s)

unfoldable pub split_at_first : Span → ℕ → Bool × Span × Span
unfolding index_first
split_at_first s needle = cut s (index_first needle s)

-- the loop of `pg_span_split_at_last`, with `i` bytes still to look at
unfoldable pub index_last : ℕ → Span → ℕ → Option ℕ
index_last needle s zero = none
index_last needle s (suc i) =
    let earlier = index_last needle s i in if get_or s i 0 == needle then some i else earlier

unfoldable pub split_at_last : Span → ℕ → Bool × Span × Span
unfolding index_last
split_at_last s needle = cut s (index_last needle s (length s))

-- the result, and `*span`
unfoldable pub skip_left_until_inclusive : Span → ℕ → Option (Bool × Span)
unfolding split_at_first consume_left
skip_left_until_inclusive s needle =
    let (found, left, right) = split_at_first s needle in
    if not found then some (false, s) else (consume_left right 1 >>= λ rest. some (true, rest))

unfoldable pub trim_left : Span → Span
trim_left [] = []
trim_left (c ∷ s) = let rest = trim_left s in if is_space c then rest else c ∷ s

-- the loop of `pg_span_trim_right`, on the bytes that are left
unfoldable pub trim_right_from : ℕ → Span → Span
trim_right_from zero s = []
trim_right_from (suc n) s =
    let rest = trim_right_from n s in if is_space (get_or s n 0) then rest else take (suc n) s

unfoldable pub trim_right : Span → Span
unfolding trim_right_from
trim_right s = trim_right_from (length s) s

unfoldable pub trim : Span → Span
unfolding trim_left trim_right
trim s = trim_right (trim_left s)

-- `a.len == b.len && memcmp(a.data, b.data, a.len) == 0`
unfoldable pub memcmp_eq : Span → Span → Bool
memcmp_eq [] b = true
memcmp_eq (x ∷ a) [] = false
memcmp_eq (x ∷ a) (y ∷ b) = x == y && memcmp_eq a b

unfoldable pub eq : Span → Span → Bool
unfolding memcmp_eq
eq a b = length a == length b && memcmp_eq a b

unfoldable pub ieq_from : Span → Span → Bool
unfolding to_lower
ieq_from [] b = true
ieq_from (x ∷ a) [] = false
ieq_from (x ∷ a) (y ∷ b) =
    let rest = ieq_from a b in if not (to_lower x == to_lower y) then false else rest

unfoldable pub ieq : Span → Span → Bool
unfolding ieq_from
ieq a b = if not (length a == length b) then false else ieq_from a b

-- the loop of `pg_span_parse_u64_decimal`; `none` is `*valid` set to false
unfoldable pub u64_digits : Span → ℕ → Option ℕ
unfolding is_digit
u64_digits [] res = some res
u64_digits (c ∷ s) res =
    let rest = u64_digits s (add64 (mul64 res 10) (c - b'0')) in
    if not (is_digit c) then none else rest

-- the parser behind the trim and the sign
unfoldable pub u64_unsigned : Span → Option ℕ
unfolding u64_digits
u64_unsigned [] = u64_digits [] 0
u64_unsigned (c ∷ s) =
    if c == b'-' then none else if c == b'+' then u64_digits s 0 else u64_digits (c ∷ s) 0

unfoldable pub parse_u64_decimal : Span → Option ℕ
unfolding trim u64_unsigned
parse_u64_decimal s = u64_unsigned (trim s)
