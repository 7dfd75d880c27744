-- ===== src/Pg/Span/Tests.antt =====
-- The theorems on spans at the text "i42e".
use c_fs_subscriber.Base.{◌%◌, ◌^◌, ◌≡◌, refl, some, [], ◌∷◌}
use c_fs_subscriber.Pg.Char.{is_digit, is_space}
use c_fs_subscriber.Pg.Span.{Span, split_at_first, u64_digits, parse_u64_decimal}
use c_fs_subscriber.Pg.Span.Number.{value, u64_digits-value}
use c_fs_subscriber.Pg.Span.Split.{SplitsFirst, split_at_first_lem}

abbrev text : Span
text = b'i' ∷ b'4' ∷ b'2' ∷ b'e' ∷ []

split_at_first_lem_example : SplitsFirst b'e' text (split_at_first text b'e')
split_at_first_lem_example = split_at_first_lem text b'e'

u64_digits-value_example :
    u64_digits (b'4' ∷ b'2' ∷ []) 0 ≡ some (value (b'4' ∷ b'2' ∷ []) 0 % 2 ^ 64)
u64_digits-value_example =
    u64_digits-value (b'4' ∷ b'2' ∷ []) 0 0 (unfold is_digit in (refl, (refl, tt))) refl

parse_signed : parse_u64_decimal (32 ∷ b'+' ∷ b'4' ∷ b'2' ∷ 10 ∷ []) ≡ some 42
unfolding parse_u64_decimal is_space
parse_signed = refl
