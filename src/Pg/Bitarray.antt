-- ===== src/Pg/Bitarray.antt =====
-- The bit set of pg/pg.h (`pg_bitarray_t`). An index is a `uint32_t` wherever the program makes one,
-- so that `(double)index / 8.0`, and its `ceil`, are exact. `none` is a failed `assert`.
pub mod Byte
pub mod Bits
pub mod Scan
pub mod Resize
mod Tests
use c_fs_subscriber.Base
use c_fs_subscriber.Base.{
  ltb, leb, ◌==◌, if◌then◌else◌, length, get_or, take, replicate, ◌>>=◌, ◌>>◌, assert, ℕ, zero, suc,
  ◌+◌, ◌-◌, ◌/◌, ◌%◌, ◌^◌, bit_and, bit_or, Bool, true, false, not, Option, none, some, List, [],
  ◌∷◌, ◌++◌,
}

-- `data` is the list `store`; `pg_heap_allocator` zeroes the bytes that it hands out.
pub record Bitarray : Type 0 where
  pub store : List ℕ
  pub max_index : ℕ

-- `ceil(n / 8.0)`
abbrev pub ceil_div8 : ℕ → ℕ
ceil_div8 n = (n + 7) / 8

unfoldable pub init : ℕ → Bitarray
init max_index = record { store = replicate (1 + ceil_div8 max_index) 0; max_index = max_index }

-- `memcpy(dst, src, length src)` for a source that fits
unfoldable pub memcpy : List ℕ → List ℕ → List ℕ
memcpy dst [] = dst
memcpy [] (x ∷ xs) = []
memcpy (d ∷ dst) (x ∷ xs) = x ∷ memcpy dst xs

unfoldable pub setv : Bitarray → List ℕ → Option Bitarray
unfolding memcpy
setv b src = do
  assert (leb (length src) (1 + b.max_index))
  assert (leb (length src) (length b.store))
  some (record b { store = memcpy b.store src })

unfoldable pub len : Bitarray → ℕ
len b = b.max_index + 1

-- `x | 1 << k`, `x & ~(1 << k)` on `int`, and `x & 1 << k` as a `bool`
unfoldable pub set_bit : ℕ → ℕ → ℕ
set_bit x k = bit_or x (2 ^ k) % 256

unfoldable pub unset_bit : ℕ → ℕ → ℕ
unset_bit x k = bit_and x (2 ^ 32 - 1 - 2 ^ k) % 256

unfoldable pub test_bit : ℕ → ℕ → Bool
test_bit x k = not (bit_and x (2 ^ k) == 0)

unfoldable pub set : Bitarray → ℕ → Option Bitarray
set b index = do
  assert (ltb (index / 8) (length b.store))
  some (record b {
    store = Base.set b.store (index / 8) (set_bit (get_or b.store (index / 8) 0) (index % 8));
  })

unfoldable pub get : Bitarray → ℕ → Option Bool
get b index = do
  assert (ltb (index / 8) (length b.store))
  some (test_bit (get_or b.store (index / 8) 0) (index % 8))

-- `false`, or `true` with `*is_set` and the next `*index`
unfoldable pub next : Bitarray → ℕ → Option (Option (Bool × ℕ))
unfolding len get
next b index =
    if leb (len b) index
    then some none
    else (get b index >>= λ is_set. some (some (is_set, index + 1)))

unfoldable pub unset : Bitarray → ℕ → Option Bitarray
unset b index = do
  assert (ltb (index / 8) (length b.store))
  some (record b {
    store = Base.set b.store (index / 8) (unset_bit (get_or b.store (index / 8) 0) (index % 8));
  })

-- `for (i = ...; i < len; i++) res += get(i)`, with the rounds that are left
unfoldable pub count_set_from : Bitarray → ℕ → ℕ → ℕ → Option ℕ
unfolding get
count_set_from b zero i res = some res
count_set_from b (suc n) i res =
    get b i >>= λ x. count_set_from b n (i + 1) (res + (if x then 1 else 0))

unfoldable pub count_set : Bitarray → Option ℕ
unfolding len count_set_from
count_set b = count_set_from b (len b) 0 0

unfoldable pub count_unset_from : Bitarray → ℕ → ℕ → ℕ → Option ℕ
unfolding get
count_unset_from b zero i res = some res
count_unset_from b (suc n) i res =
    get b i >>= λ x. count_unset_from b n (i + 1) (res + (if x then 0 else 1))

unfoldable pub count_unset : Bitarray → Option ℕ
unfolding len count_unset_from
count_unset b = count_unset_from b (len b) 0 0

-- the loops of `is_all_set` and `is_all_unset`: every bit equals `want`
unfoldable pub is_all_from : Bool → Bitarray → ℕ → ℕ → Option Bool
unfolding get
is_all_from want b zero i = some true
is_all_from want b (suc n) i =
    let rest = is_all_from want b n (i + 1) in
    get b i >>= λ x. if (if want then x else not x) then rest else some false

unfoldable pub is_all_set : Bitarray → Option Bool
unfolding len is_all_from
is_all_set b = is_all_from true b (len b) 0

unfoldable pub is_all_unset : Bitarray → Option Bool
unfolding len is_all_from
is_all_unset b = is_all_from false b (len b) 0

-- `memset(data, x, length data)`
unfoldable pub fill : ℕ → List ℕ → List ℕ
fill x [] = []
fill x (y ∷ ys) = x ∷ fill x ys

unfoldable pub set_all : Bitarray → Bitarray
unfolding fill
set_all b = record b { store = fill 0xff b.store }

unfoldable pub unset_all : Bitarray → Bitarray
unfolding fill
unset_all b = record b { store = fill 0 b.store }

-- `pg_bitarray_resize`, whose length is one byte less than that of `init`. `behind` holds the bytes
-- of the block past the length, which growing exposes.
unfoldable pub resize : Bitarray → ℕ → List ℕ → Bitarray
resize b max_index behind = record {
  store = take (ceil_div8 max_index) (b.store ++ behind);
  max_index = max_index;
}
