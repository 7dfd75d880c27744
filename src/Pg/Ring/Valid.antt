-- ===== src/Pg/Ring/Valid.antt =====
-- The representation invariant of `pg_ring_t`.
use c_fs_subscriber.Base.{
  length, length-set, length-replicate, ℕ, zero, ◌+◌, ◌^◌, ◌≤◌, ◌<◌, ◌≡◌, Option, none, some, arith,
}
use c_fs_subscriber.Pg.Ring.{
  Ring, init, back_slot, before, push_back, push_front, pop_back, pop_front, consume_front,
  consume_back, clear, space,
}

-- The capacity stays below half of the address space, so that `offset + len` does not wrap.
pub record IsValid (r : Ring) : Type 0 where
  pub stored : length r.store ≡ r.cap
  pub small : r.cap ≤ 2 ^ 63
  pub offset_in : r.offset < r.cap
  pub len_in : r.len ≤ r.cap

-- What the operation returns, if it returns, is a valid ring of the same capacity.
abbrev pub Keeps : ℕ → Option Ring → Type 0
Keeps n none = Unit {0}
Keeps n (some r) = IsValid r × (r.cap ≡ n)

abbrev pub KeepsSecond : ℕ → Option (ℕ × Ring) → Type 0
KeepsSecond n none = Unit {0}
KeepsSecond n (some (x, r)) = IsValid r × (r.cap ≡ n)

pub init-Keeps : (n : ℕ) → n ≤ 2 ^ 63 → Keeps n (init n)
unfolding init
init-Keeps n h = ground (arith, length-replicate {0} n (zero))

pub push_back-Keeps : {r : Ring} (x : ℕ) → IsValid r → Keeps r.cap (push_back r x)
unfolding push_back
push_back-Keeps {r} x v = ground (arith, length-set r.store (back_slot r) x)

pub push_front-Keeps : {r : Ring} (x : ℕ) → IsValid r → Keeps r.cap (push_front r x)
unfolding push_front
push_front-Keeps {r} x v = ground (arith, length-set r.store (before r) x)

pub pop_back-KeepsSecond : {r : Ring} → IsValid r → KeepsSecond r.cap (pop_back r)
unfolding pop_back
pop_back-KeepsSecond {r} v = ground arith

pub pop_front-KeepsSecond : {r : Ring} → IsValid r → KeepsSecond r.cap (pop_front r)
unfolding pop_front
pop_front-KeepsSecond {r} v = ground arith

pub consume_front-Keeps : {r : Ring} (n : ℕ) → IsValid r → Keeps r.cap (consume_front r n)
unfolding consume_front
consume_front-Keeps {r} n v = ground arith

pub consume_back-Keeps : {r : Ring} (n : ℕ) → IsValid r → Keeps r.cap (consume_back r n)
unfolding consume_back
consume_back-Keeps {r} n v = ground arith

pub clear-IsValid : {r : Ring} → IsValid r → IsValid (clear r)
unfolding clear
clear-IsValid v = ground arith

-- The space left and the bytes held make up the capacity.
pub space-add-len : {r : Ring} → IsValid r → space r + r.len ≡ r.cap
unfolding space
space-add-len v = omega arith
