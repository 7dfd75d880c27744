-- ===== src/Pg/Ring/Abstract.antt =====
-- A double-ended queue of at most `m` bytes, oldest first: what a client may expect of a ring.
-- `none` is a call that the queue does not allow.
use c_fs_subscriber.Base.{
  ltb, leb, if◌then◌else◌, length, get_elem?, take, drop, ◌>>=◌, ℕ, ◌+◌, ◌-◌, ◌≡◌, refl, Option,
  none, some, List, [], ◌∷◌, ◌++◌,
}

abbrev pub Deque : Type 0
Deque = List ℕ

unfoldable pub pop_front : Deque → Option (ℕ × Deque)
pop_front [] = none
pop_front (x ∷ q) = some (x, q)

-- The last byte, and what stands before it.
unfoldable pub pop_back : Deque → Option (ℕ × Deque)
pop_back [] = none
pop_back (x ∷ []) = some (x, [])
pop_back (x ∷ y ∷ q) = (pop_back (y ∷ q)) >>= λ (z, r). some (z, x ∷ r)

unfoldable pub consume_front : Deque → ℕ → Option Deque
consume_front q n = if leb n (length q) then some (drop n q) else none

unfoldable pub consume_back : Deque → ℕ → Option Deque
consume_back q n = if leb n (length q) then some (take (length q - n) q) else none

unfoldable pub push_front : ℕ → Deque → ℕ → Option Deque
push_front m q x = if ltb (length q) m then some (x ∷ q) else none

unfoldable pub push_backv : ℕ → Deque → List ℕ → Option Deque
push_backv m q xs = if leb (length q + length xs) m then some (q ++ xs) else none

unfoldable pub push_back : ℕ → Deque → ℕ → Option Deque
push_back m q x = if ltb (length q) m then some (q ++ (x ∷ [])) else none

-- What can be read: the byte at an index, the first and the last.
unfoldable pub get : Deque → ℕ → Option ℕ
get q i = get_elem? q i

unfoldable pub front : Deque → Option ℕ
front q = get_elem? q 0

unfoldable pub back : Deque → Option ℕ
back q = get_elem? q (length q - 1)

-- The bytes that still fit.
unfoldable pub space : ℕ → Deque → ℕ
space m q = m - length q

pub pop_back-append : (q : Deque) (x : ℕ) → pop_back (q ++ (x ∷ [])) ≡ some (x, q)
unfolding pop_back
pop_back-append [] x = refl
pop_back-append (y ∷ []) x = refl
pop_back-append (y ∷ z ∷ q) x = rw (pop_back-append (z ∷ q) x)
