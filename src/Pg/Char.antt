-- ===== src/Pg/Char.antt =====
-- The character tests of pg/pg.h. A `char` is its byte: those above 127, which are negative as
-- `char`, fail every comparison here on either reading.
use c_fs_subscriber.Base.{leb, ◌==◌, if◌then◌else◌, ℕ, ◌+◌, ◌-◌, Bool, ◌&&◌, ◌||◌}

abbrev within : ℕ → ℕ → ℕ → Bool
within lo hi c = leb lo c && leb c hi

unfoldable pub to_lower : ℕ → ℕ
to_lower c = if within b'A' b'Z' c then b'a' + (c - b'A') else c

unfoldable pub is_space : ℕ → Bool
is_space c = c == 32 || c == 9 || c == 10 || c == 13 || c == 12 || c == 11

unfoldable pub is_digit : ℕ → Bool
is_digit c = within b'0' b'9' c

unfoldable pub is_alpha : ℕ → Bool
is_alpha c = within b'A' b'Z' c || within b'a' b'z' c

unfoldable pub is_alphanumeric : ℕ → Bool
unfolding is_alpha is_digit
is_alphanumeric c = is_alpha c || is_digit c
