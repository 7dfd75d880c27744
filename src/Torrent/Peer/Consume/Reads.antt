-- ===== src/Torrent/Peer/Consume/Reads.antt =====
-- What reading from the ring leaves on it.
use c_fs_subscriber.Base.{leb, assert, Each, Each-bind, Each-any, ℕ, zero, suc, ◌≤◌, ◌<◌, arith}
use c_fs_subscriber.Pg.Ring.{Ring, pop_front, consume_front}
use c_fs_subscriber.Torrent.Peer.Wire.{read_u32, pop_many}

-- At most `n` bytes are left.
abbrev pub Left {ℓ} : {A : Type ℓ} → ℕ → A × Ring → Type 0
Left n x = x.1.len ≤ n

pub pop_front-Left : (n : ℕ) (r : Ring) → r.len ≤ n → Each (Left n) (pop_front r)
unfolding pop_front
pop_front-Left n r h = ground arith

pub pop_many-Left : (n m : ℕ) (r : Ring) → r.len ≤ n → Each (Left n) (pop_many m r)
unfolding pop_many
pop_many-Left n zero r h = h
pop_many-Left n (suc m) r h =
    Each-bind (Left n) (Left n) (pop_front r) _ (pop_front-Left n r h) λ (x, r') h'.
      Each-bind (Left n) (Left n) (pop_many m r') _ (pop_many-Left n m r' h') λ (xs, r'') h''. h''

pub read_u32-Left : (n : ℕ) (r : Ring) → r.len ≤ n → Each (Left n) (read_u32 r)
unfolding read_u32
read_u32-Left n r h =
    Each-bind (λ _. Unit {0}) (Left n) (assert (leb 4 r.len)) _ (Each-any _)
      λ _ _. Each-bind (Left n) (Left n) (pop_front r) _ (pop_front-Left n r h) λ (a, r1) h1.
        Each-bind (Left n) (Left n) (pop_front r1) _ (pop_front-Left n r1 h1) λ (b, r2) h2.
          Each-bind (Left n) (Left n) (pop_front r2) _ (pop_front-Left n r2 h2) λ (c, r3) h3.
            Each-bind (Left n) (Left n) (pop_front r3) _ (pop_front-Left n r3 h3) λ (d, r4) h4. h4

pub consume_front-Left :
    (n m : ℕ) (r : Ring) → 0 < n → r.len ≤ m → Each (λ (r' : Ring). r'.len < m) (consume_front r n)
unfolding consume_front
consume_front-Left n m r pos h = ground arith
