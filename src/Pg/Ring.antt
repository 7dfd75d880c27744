-- ===== src/Pg/Ring.antt =====
-- The byte ring of pg/pg.h (`pg_ring_t`). A function that updates `*ring` returns the new ring,
-- behind what it returns. `none` is a failed `assert` or an access outside of the storage.
pub mod Valid
pub mod Cycle
pub mod Abstract
pub mod Deque
pub mod Bulk
pub mod Run
mod Tests
use c_fs_subscriber.Base.{
  ℕ, ◌+◌, ◌-◌, ◌%◌, ◌^◌, Bool, List, [], ◌∷◌, Option, none, some, ltb, leb, ◌==◌, if◌then◌else◌,
  length, get_elem?, set, take, drop, replicate, add64, sub64, ◌>>=◌, ◌>>◌, assert,
}

-- `data` is the list `store`; the allocator is `pg_heap_allocator`, which zeroes what it hands out.
pub record Ring : Type 0 where
  pub store : List ℕ
  pub len : ℕ
  pub offset : ℕ
  pub cap : ℕ

-- `ring->data[i]`, read and written
unfoldable pub load : Ring → ℕ → Option ℕ
load r i = get_elem? r.store i

unfoldable pub write : Ring → ℕ → ℕ → Option (List ℕ)
write r i x = if ltb i (length r.store) then some (set r.store i x) else none

unfoldable pub init : ℕ → Option Ring
init cap = do
  assert (ltb 0 cap)
  some (record { store = replicate cap 0; len = 0; offset = 0; cap = cap })

-- The index of element `i`, and of the first free slot.
abbrev pub slot : Ring → ℕ → ℕ
slot r i = add64 i r.offset % r.cap

abbrev pub back_slot : Ring → ℕ
back_slot r = add64 r.offset r.len % r.cap

-- `pg_ring_get_ptr` and its dereference; at `cap == 0` the pointer is null
unfoldable pub get : Ring → ℕ → Option ℕ
unfolding load
get r i = if r.cap == 0 then none else (do assert (ltb i r.cap); load r (slot r i))

unfoldable pub front : Ring → Option ℕ
unfolding load
front r = do assert (ltb r.offset r.cap); load r r.offset

unfoldable pub back : Ring → Option ℕ
unfolding load
back r = if r.cap == 0 then none else load r (sub64 (add64 r.offset r.len) 1 % r.cap)

unfoldable pub push_back : Ring → ℕ → Option Ring
unfolding write
push_back r x = do
  assert (ltb r.len r.cap)
  assert (ltb (back_slot r) r.cap)
  store ← write r (back_slot r) x
  some (record r { store = store; len = add64 r.len 1 })

abbrev pub before : Ring → ℕ
before r = add64 (sub64 r.offset 1) r.cap % r.cap

unfoldable pub push_front : Ring → ℕ → Option Ring
unfolding write
push_front r x = do
  assert (ltb r.len r.cap)
  assert (ltb (before r) r.cap)
  store ← write r (before r) x
  some (record r { store = store; offset = before r; len = add64 r.len 1 })

unfoldable pub pop_back : Ring → Option (ℕ × Ring)
unfolding load
pop_back r = do
  assert (ltb 0 r.len)
  let r' = record r { len = r.len - 1 }
  assert (ltb (back_slot r') r'.cap)
  x ← load r' (back_slot r')
  some (x, r')

unfoldable pub pop_front : Ring → Option (ℕ × Ring)
unfolding load
pop_front r = do
  assert (ltb 0 r.len)
  assert (ltb r.offset r.cap)
  x ← load r r.offset
  some (x, record r { offset = add64 r.offset 1 % r.cap; len = r.len - 1 })

unfoldable pub consume_front : Ring → ℕ → Option Ring
consume_front r n = do
  assert (leb n r.len)
  some (record r { offset = add64 r.offset n % r.cap; len = r.len - n })

unfoldable pub consume_back : Ring → ℕ → Option Ring
consume_back r n = do assert (leb n r.len); some (record r { len = r.len - n })

unfoldable pub clear : Ring → Ring
clear r = record r { offset = 0; len = 0 }

unfoldable pub space : Ring → ℕ
space r = sub64 r.cap r.len

-- `memcpy(data + i, src, length src)`
unfoldable pub memcpy : List ℕ → ℕ → List ℕ → List ℕ
memcpy dst i [] = dst
memcpy dst i (x ∷ xs) = memcpy (set dst i x) (i + 1) xs

-- The bytes that fit between index `i` and the end of the storage.
unfoldable pub tail_count : ℕ → ℕ → ℕ → ℕ
tail_count cap i n = let space_tail = sub64 cap i in if ltb space_tail n then space_tail else n

unfoldable pub push_backv : Ring → List ℕ → Option Ring
unfolding memcpy tail_count
push_backv r src = do
  assert (leb (add64 r.len (length src)) r.cap)
  let i = back_slot r
  let n = tail_count r.cap i (length src)
  assert (leb (add64 i n) r.cap)
  let tail = memcpy r.store i (take n src)
  some (record r { store = memcpy tail 0 (drop n src); len = add64 r.len (length src) })
