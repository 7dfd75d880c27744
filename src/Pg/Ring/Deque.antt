-- ===== src/Pg/Ring/Deque.antt =====
-- Each operation on a ring, against that on the double-ended queue of the bytes that it holds.
use native.Mathlib.Nat.{mod-lt, mod-eq_of_lt}
use c_fs_subscriber.Base.{
  length, get_elem?, set, get_elem?-eq-get_or, get_or-set_self, add64, ℕ, ◌+◌, ◌-◌, ◌%◌, ◌<◌, ◌≡◌,
  refl, Option, none, some, List, [], arith, dec_lt,
}
use c_fs_subscriber.Pg.Ring.{
  Ring, before, get, front, back, clear, space, push_back, push_front, pop_back, pop_front,
  consume_front, consume_back,
}
use c_fs_subscriber.Pg.Ring.Abstract
use c_fs_subscriber.Pg.Ring.Cycle.{
  cycle, length-cycle, cycle_mod, cycle_wrap, cycle_empty, cycle-set_start, front_shift, drop-cycle,
  take-cycle, get_elem?-cycle, cycle-set_end, cycle_cons, cycle_last, cycle,
}
use c_fs_subscriber.Pg.Ring.Valid.{IsValid, space-add-len}

-- The bytes held, oldest first.
unfoldable pub contents : Ring → List ℕ
contents r = cycle r.store r.cap r.offset r.len

-- The same of what an operation returns.
abbrev pub view : Option Ring → Option (List ℕ)
view none = none
view (some r) = some (contents r)

abbrev pub view_second : Option (ℕ × Ring) → Option (ℕ × List ℕ)
view_second none = none
view_second (some (x, r)) = some (x, contents r)

pub length-contents : (r : Ring) → length (contents r) ≡ r.len
unfolding contents
length-contents r = length-cycle r.store r.cap r.offset r.len

pub push_back_refines :
    {r : Ring} (x : ℕ) → IsValid r → view (push_back r x) ≡ Abstract.push_back r.cap (contents r) x
unfolding push_back contents Abstract.push_back
push_back_refines {r} x v = ground (
  arith,
  length-cycle r.store r.cap r.offset r.len,
  cycle-set_end r.store r.cap r.offset r.len x,
  mod-lt (r.offset + r.len) {m = r.cap},
)

pub consume_front_refines :
    {r : Ring} (n : ℕ)
    → IsValid r
    → view (consume_front r n) ≡ Abstract.consume_front (contents r) n
unfolding consume_front contents Abstract.consume_front
consume_front_refines {r} n v = ground (
  arith,
  length-cycle r.store r.cap r.offset r.len,
  drop-cycle r.store r.cap r.offset r.len n,
  cycle_wrap r.store r.cap (add64 r.offset n) (r.len - n),
)

pub consume_back_refines :
    {r : Ring} (n : ℕ) → IsValid r → view (consume_back r n) ≡ Abstract.consume_back (contents r) n
unfolding consume_back contents Abstract.consume_back
consume_back_refines {r} n v = ground (
  arith,
  length-cycle r.store r.cap r.offset r.len,
  take-cycle r.store r.cap r.offset r.len (r.len - n),
)

pub pop_front_refines :
    {r : Ring} → IsValid r → view_second (pop_front r) ≡ Abstract.pop_front (contents r)
unfolding pop_front contents Abstract.pop_front
pop_front_refines {r} v = ground (
  arith,
  length-cycle r.store r.cap r.offset r.len,
  cycle_cons r.store r.cap r.offset r.len,
  get_elem?-eq-get_or r.store r.offset 0,
  cycle_wrap r.store r.cap (add64 r.offset 1) (r.len - 1),
)

pop_back_empty :
    {r : Ring}
    → IsValid r
    → ¬ (0 < r.len)
    → view_second (pop_back r) ≡ Abstract.pop_back (contents r)
unfolding pop_back contents Abstract.pop_back
pop_back_empty {r} v p = rw (cycle_empty r.store r.cap r.offset r.len p) (ground arith)

pub pop_back_refines :
    {r : Ring} → IsValid r → view_second (pop_back r) ≡ Abstract.pop_back (contents r)
unfolding pop_back contents
pop_back_refines {r} v = elim (dec_lt 0 r.len) [
  | yes p ↦
      rw (cycle_last r.store r.cap r.offset r.len p, Abstract.pop_back-append)
        (ground (
          arith,
          get_elem?-eq-get_or r.store ((r.offset + (r.len - 1)) % r.cap) 0,
          mod-lt (r.offset + (r.len - 1)) {m = r.cap},
        ))
  | no p ↦ pop_back_empty v p
]

pub push_front_refines :
    {r : Ring} (x : ℕ)
    → IsValid r
    → view (push_front r x) ≡ Abstract.push_front r.cap (contents r) x
unfolding push_front contents Abstract.push_front
push_front_refines {r} x v = ground (
  arith,
  length-cycle r.store r.cap r.offset r.len,
  mod-lt (r.offset + (r.cap - 1)) {m = r.cap},
  cycle_cons (set r.store (before r) x) r.cap (before r) (r.len + 1),
  get_or-set_self r.store (before r) x 0,
  front_shift r.offset r.cap,
  cycle_mod (set r.store (before r) x) r.cap (before r + 1) r.offset r.len,
  cycle-set_start r.store r.cap r.offset r.len x,
)

-- On a valid ring, reading at an index below the length gives the byte of the queue at that index.
pub get_refines : {r : Ring} (i : ℕ) → IsValid r → i < r.len → get r i ≡ get_elem? (contents r) i
unfolding get contents
get_refines {r} i v p = ground (
  arith,
  get_elem?-cycle r.store r.cap r.offset r.len i,
  get_elem?-eq-get_or r.store ((r.offset + i) % r.cap) 0,
  mod-lt (r.offset + i) {m = r.cap},
)

pub front_refines :
    {r : Ring} → IsValid r → 0 < length (contents r) → front r ≡ Abstract.front (contents r)
unfolding front contents Abstract.front
front_refines {r} v p = ground (
  arith,
  length-cycle r.store r.cap r.offset r.len,
  get_elem?-cycle r.store r.cap r.offset r.len 0,
  get_elem?-eq-get_or r.store r.offset 0,
  mod-eq_of_lt v.offset_in,
)

pub back_refines :
    {r : Ring} → IsValid r → 0 < length (contents r) → back r ≡ Abstract.back (contents r)
unfolding back contents Abstract.back
back_refines {r} v p = ground (
  arith,
  length-cycle r.store r.cap r.offset r.len,
  get_elem?-cycle r.store r.cap r.offset r.len (r.len - 1),
  get_elem?-eq-get_or r.store ((r.offset + (r.len - 1)) % r.cap) 0,
  mod-lt (r.offset + (r.len - 1)) {m = r.cap},
)

pub clear_refines : (r : Ring) → contents (clear r) ≡ []
unfolding clear contents cycle
clear_refines r = refl

pub space_refines : {r : Ring} → IsValid r → space r ≡ Abstract.space r.cap (contents r)
unfolding Abstract.space
space_refines {r} v = omega (arith, space-add-len v, length-contents r)
