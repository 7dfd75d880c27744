-- ===== src/Torrent/Peer/Wire.antt =====
-- How the peers read and write numbers on the wire.
pub mod Holds
use c_fs_subscriber.Base.{
  leb, ◌>>=◌, ◌>>◌, assert, ℕ, zero, suc, ◌+◌, ◌*◌, ◌/◌, ◌%◌, Option, some, List, [], ◌∷◌, ◌++◌,
}
use c_fs_subscriber.Pg.Ring.{Ring, pop_front, get}

-- `ntohl` of four bytes
abbrev pub ntohl : ℕ → ℕ → ℕ → ℕ → ℕ
ntohl a b c d = a * 16777216 + b * 65536 + c * 256 + d

-- the elements of an initializer list are evaluated from left to right
unfoldable pub read_u32 : Ring → Option (ℕ × Ring)
unfolding pop_front
read_u32 r = do
  assert (leb 4 r.len)
  (a, r1) ← pop_front r
  (b, r2) ← pop_front r1
  (c, r3) ← pop_front r2
  (d, r4) ← pop_front r3
  some (ntohl a b c d, r4)

unfoldable pub peek_read_u32 : Ring → Option ℕ
unfolding get
peek_read_u32 r = do
  assert (leb 4 r.len)
  a ← get r 0
  b ← get r 1
  c ← get r 2
  d ← get r 3
  some (ntohl a b c d)

-- a loop of `n` calls of `pg_ring_pop_front`
unfoldable pub pop_many : ℕ → Ring → Option (List ℕ × Ring)
pop_many zero r = some ([], r)
pop_many (suc n) r = pop_front r >>= λ (x, r'). pop_many n r' >>= λ (xs, r''). some (x ∷ xs, r'')

-- the bytes that `htonl` leaves in memory
unfoldable pub write_u32 : List ℕ → ℕ → List ℕ
write_u32 buf x = buf ++ (x / 16777216 % 256 ∷ x / 65536 % 256 ∷ x / 256 % 256 ∷ x % 256 ∷ [])

unfoldable pub write_u8 : List ℕ → ℕ → List ℕ
write_u8 buf x = buf ++ (x ∷ [])
