-- ===== src/Pg/Pool.antt =====
-- The pool of chunks of pg/pg.h (`pg_pool_t`). The free list is threaded through the chunks that are
-- free; it is the list of their offsets in the buffer, the head first. A chunk that is given out is not
-- written by the pool. `none` is a failed `assert`; `calloc` does not fail.
pub mod Valid
mod Tests
use c_fs_subscriber.Base.{
  ltb, leb, ◌==◌, if◌then◌else◌, ◌>>=◌, ◌>>◌, assert, add64, sub64, mul64, ℕ, zero, suc, ◌+◌, ◌-◌,
  ◌/◌, bit_and, Bool, Option, none, some, List, [], ◌∷◌,
}

pub record Pool : Type 0 where
  pub buf_len : ℕ
  pub chunk_size : ℕ
  pub free_chunks : List ℕ

unfoldable pub is_power_of_two : ℕ → Bool
is_power_of_two x = bit_and x (sub64 x 1) == 0

unfoldable pub align_forward : ℕ → ℕ → Option ℕ
unfolding is_power_of_two
align_forward ptr align = do
  assert (is_power_of_two align)
  let modulo = bit_and ptr (sub64 align 1)
  some (if modulo == 0 then ptr else add64 ptr (sub64 align modulo))

-- the loop of `pg_pool_free_all`, with the rounds that are left, from chunk `i`
unfoldable pub free_from : Pool → ℕ → ℕ → Pool
free_from p zero i = p
free_from p (suc n) i =
    free_from (record p { free_chunks = mul64 i p.chunk_size ∷ p.free_chunks }) n (i + 1)

unfoldable pub free_all : Pool → Pool
unfolding free_from
free_all p = free_from p (p.buf_len / p.chunk_size) 0

-- the chunk, zeroed, or none for `NULL`
unfoldable pub alloc : Pool → Option ℕ × Pool
alloc p = elim p.free_chunks [ [] ↦ (none, p) | c ∷ cs ↦ (some c, record p { free_chunks = cs }) ]

-- `ptr` is an offset in the buffer; the size of a pointer is 8
unfoldable pub free : Pool → ℕ → Option Pool
free p ptr = do
  assert (ltb ptr (p.buf_len - 8))
  some (record p { free_chunks = ptr ∷ p.free_chunks })

unfoldable pub init : ℕ → ℕ → Option Pool
unfolding free_all
init chunk_size max_items_count = do
  chunk_size' ← align_forward chunk_size 16
  assert (leb 8 chunk_size')
  some (
      free_all (record {
        buf_len = mul64 max_items_count chunk_size';
        chunk_size = chunk_size';
        free_chunks = [];
      }))
