-- ===== src/Pg/Str.antt =====
-- The strings of pg/pg.h (`pg_string_t`), on the heap: the bytes behind the header of the string, and its
-- length and capacity. `realloc` of the heap is taken to give memory, which `pg_heap_realloc` clears; a null
-- pointer would stop the program in its `memset`. `none` is a write outside of the bytes.
pub mod Append
pub mod Encode
mod Tests
use c_fs_subscriber.Base
use c_fs_subscriber.Base.{
  ltb, leb, if◌then◌else◌, take, drop, replicate, ◌>>=◌, ◌>>◌, ℕ, ◌+◌, ◌-◌, ◌*◌, ◌/◌, ◌%◌, not,
  Option, none, some, [], ◌∷◌, ◌++◌,
}
use c_fs_subscriber.Pg.Span.{Span}

pub record Str : Type 0 where
  pub buffer : Span
  pub length : ℕ
  pub capacity : ℕ

-- what the string shows
abbrev pub text : Str → Span
text s = take s.length s.buffer

-- `memcpy` or `memmove` to the bytes from `i` on
unfoldable pub write : Span → ℕ → Span → Option Span
write b i bytes =
    if leb (i + Base.length bytes) (Base.length b)
    then some (take i b ++ (bytes ++ drop (i + Base.length bytes) b))
    else none

-- the sizes are those of the bytes, without the header
unfoldable pub heap_realloc : Span → ℕ → ℕ → Span
heap_realloc old new_size old_size = take old_size old ++ replicate (new_size - old_size) 0

unfoldable pub make_reserve : ℕ → Str
make_reserve capacity = record {
  buffer = heap_realloc [] (capacity + 1) 0;
  length = 0;
  capacity = capacity;
}

unfoldable pub make_length : Span → Option Str
make_length bytes = do
  buffer ← write (heap_realloc [] (Base.length bytes + 1) 0) 0 bytes
  buffer' ← write buffer (Base.length bytes) (0 ∷ [])
  some (record { buffer = buffer'; length = Base.length bytes; capacity = Base.length bytes })

unfoldable pub duplicate : Str → Option Str
duplicate s = make_length (text s)

unfoldable pub available_space : Str → ℕ
available_space s = if ltb s.length s.capacity then s.capacity - s.length else 0

unfoldable pub clear : Str → Option Str
clear s = do buffer ← write s.buffer 0 (0 ∷ []); some (record s { buffer = buffer; length = 0 })

unfoldable pub make_space_for : Str → ℕ → Str
make_space_for s add_len =
    let new_len = s.length + add_len in
    if leb add_len (available_space s) then s else record s {
      buffer = heap_realloc s.buffer (new_len + 1) (s.length + 1);
      capacity = new_len;
    }

unfoldable pub append_length : Str → Span → Option Str
append_length s other =
    let s' = make_space_for s (Base.length other) in
    if not (ltb 0 (Base.length other)) then some s else do
      buffer ← write s'.buffer s.length other
      buffer' ← write buffer (s.length + Base.length other) (0 ∷ [])
      some (record s' { buffer = buffer'; length = s.length + Base.length other })

unfoldable pub append : Str → Str → Option Str
append s other = append_length s (text other)

-- `%02X` of four bits
unfoldable pub hex_digit : ℕ → ℕ
hex_digit n = if ltb n 10 then n + b'0' else n + 55

-- `"%%%02X"`
unfoldable pub percent : ℕ → Span
percent c = b'%' ∷ hex_digit (c / 16) ∷ hex_digit (c % 16) ∷ []

-- the loop of `pg_span_url_encode`
unfoldable pub encode_from : Str → Span → Option Str
encode_from res [] = some res
encode_from res (c ∷ s) = append_length res (percent c) >>= λ res'. encode_from res' s

unfoldable pub url_encode : Span → Option Str
url_encode src = encode_from (make_reserve (3 * Base.length src)) src
