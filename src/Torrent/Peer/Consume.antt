-- ===== src/Torrent/Peer/Consume.antt =====
-- How much of the ring a parse takes, whatever the ring holds.
pub mod Reads
use c_fs_subscriber.Pg.Bitarray.{ceil_div8}
use c_fs_subscriber.Torrent.Peer.Parse.{
  Parsed, take_have, take_bitfield, take_three, parse_data, sized, fetch_data, parse_plain,
  parse_piece, parse_tag, parse_message, check_handshaked, message_parse, read_handshake,
}
use c_fs_subscriber.Torrent.Peer.{
  ErrorKind, Message, Peer, is_error, no_error, no_message, choke, unchoke, interested,
  uninterested, request, cancel, invalid_message_tag, max_message_length, is_fatal,
  handshake_length,
}
use c_fs_subscriber.Base.{
  ltb, ◌==◌, Bool-cases, ◌>>=◌, Each, Each-bind, Each-if, Each-any, Each-map, add32, ℕ, ◌+◌, ◌-◌,
  ◌≤◌, ◌<◌, ◌≡◌, refl, inl, inr, true, false, none, some, arith,
}
use c_fs_subscriber.Pg.Pool
use c_fs_subscriber.Pg.Ring.{Ring, pop_front, consume_front, get}
use c_fs_subscriber.Torrent.Peer.Wire.{read_u32, pop_many, peek_read_u32}
use c_fs_subscriber.Torrent.Peer.Consume.Reads.{
  Left, pop_front-Left, pop_many-Left, read_u32-Left, consume_front-Left,
}

is_fatal-is_error : (e : ErrorKind) → is_fatal e ≡ true → is_error e ≡ true
is_fatal-is_error no_error h = cc
is_fatal-is_error e h = ground arith

module _ {S : Type 0} where
  -- At most `n` bytes are left in the ring of the peer.
  abbrev Kept : ℕ → ErrorKind × Message × Peer S → Type 0
  Kept n x = x.2.recv_data.len ≤ n

  take_have-Kept : (n : ℕ) (p : Peer S) → p.recv_data.len ≤ n → Each (Kept n) (take_have p)
  unfolding take_have
  take_have-Kept n p h =
      Each-bind (Left n) (Kept n) (read_u32 p.recv_data) _ (read_u32-Left n p.recv_data h)
        λ (x, r) h'. Each-if (Kept n) (ltb p.metainfo.pieces_count x) _ _ h' h'

  take_bitfield-Kept :
      (n m : ℕ) (p : Peer S) → p.recv_data.len ≤ n → Each (Kept n) (take_bitfield m p)
  unfolding take_bitfield
  take_bitfield-Kept n m p h =
      Each-bind (Left n) (Kept n) (pop_many m p.recv_data) _ (pop_many-Left n m p.recv_data h)
        λ x h'. h'

  take_three-Kept :
      (n : ℕ) (msg : ℕ → ℕ → ℕ → Message) (p : Peer S)
      → p.recv_data.len ≤ n
      → Each (Kept n) (take_three msg p)
  unfolding take_three
  take_three-Kept n msg p h =
      Each-bind (Left n) (Kept n) (read_u32 p.recv_data) _ (read_u32-Left n p.recv_data h)
        λ (a, r) h1. Each-bind (Left n) (Kept n) (read_u32 r) _ (read_u32-Left n r h1) λ (b, r') h2.
          Each-bind (Left n) (Kept n) (read_u32 r') _ (read_u32-Left n r' h2) λ x h3. h3

  fetch_data-Kept :
      (n index begin size : ℕ) (p : Peer S)
      → p.recv_data.len ≤ n
      → Each (Kept n) (fetch_data index begin size p)
  unfolding fetch_data
  fetch_data-Kept n index begin size p h =
      Each-bind (λ _. Unit {0}) (Kept n) (Pool.alloc p.block_pool).0 _ (Each-any _)
        λ c _.
          Each-bind (Left n) (Kept n) (pop_many size p.recv_data) _
            (pop_many-Left n size p.recv_data h) λ x h'. h'

  parse_data-Kept :
      (n index begin size : ℕ) (p : Peer S)
      → p.recv_data.len ≤ n
      → Each (Kept n) (parse_data index begin size p)
  unfolding parse_data
  parse_data-Kept n index begin size p h = ground (arith, fetch_data-Kept n index begin size p h)

  -- Where a parse succeeds, fewer than `n` bytes are left.
  abbrev pub Shrinks : ℕ → ErrorKind × Message × Peer S → Type 0
  Shrinks n x = is_error x.0 ≡ false → x.2.recv_data.len < n

  Each-Shrinks : (n m : ℕ) (o : Parsed S) → m < n → Each (Kept m) o → Each (Shrinks n) o
  Each-Shrinks n m none l h = tt
  Each-Shrinks n m (some x) l h = λ _. omega arith

  -- Behind the length and the tag, nothing is put back.
  behind :
      (n : ℕ) (p : Peer S) (k : Peer S → Parsed S)
      → ((m : ℕ) (q : Peer S) → q.recv_data.len ≤ m → Each (Kept m) (k q))
      → p.recv_data.len ≤ n
      → Each (Shrinks n) (consume_front p.recv_data 5 >>= λ r. k (record p { recv_data = r }))
  behind n p k f h =
      Each-bind (λ (r : Ring). r.len < n) (Shrinks n) (consume_front p.recv_data 5) _
        (consume_front-Left 5 n p.recv_data (omega arith) h)
        λ r h'.
          Each-Shrinks n r.len (k (record p { recv_data = r })) h'
            (f r.len (record p { recv_data = r }) (omega arith))

  sized-Shrinks :
      (n m size : ℕ) (p : Peer S) (k : Peer S → Parsed S)
      → ((m' : ℕ) (q : Peer S) → q.recv_data.len ≤ m' → Each (Kept m') (k q))
      → p.recv_data.len ≤ n
      → Each (Shrinks n) (sized m size p k)
  unfolding sized
  sized-Shrinks n m size p k f h = elim (Bool-cases (m == size)) [
    | inr e ↦ rw e (λ z. cc)
    | inl e ↦ elim (Bool-cases (ltb p.recv_data.len (add32 m 4))) [
      | inl w ↦ rw (e, w) (λ z. cc)
      | inr w ↦ rw (e, w) (behind n p k f h)
    ]
  ]

  plain-Shrinks :
      (n : ℕ) (msg : Message) (p : Peer S)
      → p.recv_data.len ≤ n
      → Each (Shrinks n) (parse_plain msg p)
  unfolding parse_plain
  plain-Shrinks n msg p h = behind n p (λ q. some (no_error, msg, q)) (λ m q l. l) h

  piece-Shrinks : (n m : ℕ) (p : Peer S) → p.recv_data.len ≤ n → Each (Shrinks n) (parse_piece m p)
  unfolding parse_piece
  piece-Shrinks n m p h = elim (Bool-cases (ltb m 10)) [
    | inl e ↦ rw e (λ z. cc)
    | inr e ↦ elim (Bool-cases (ltb p.recv_data.len (add32 m 4))) [
      | inl w ↦ rw (e, w) (λ z. cc)
      | inr w ↦ rw (e, w) (behind n p rest rest-Kept h)
    ]
  ]
    where
      rest : Peer S → Parsed S
      rest q = read_u32 q.recv_data >>= λ (index, r).
          read_u32 r >>= λ (begin, r'). parse_data index begin (m - 9) (record q { recv_data = r' })

      rest-Kept : (m' : ℕ) (q : Peer S) → q.recv_data.len ≤ m' → Each (Kept m') (rest q)
      rest-Kept m' q l =
          Each-bind (Left m') (Kept m') (read_u32 q.recv_data) _ (read_u32-Left m' q.recv_data l)
            λ (index, r) l1.
              Each-bind (Left m') (Kept m') (read_u32 r) _ (read_u32-Left m' r l1) λ (begin, r') l2.
                parse_data-Kept m' index begin (m - 9) (record q { recv_data = r' }) l2

  refused :
      (n : ℕ) (e : ErrorKind) (p : Peer S)
      → is_error e ≡ true
      → Each (Shrinks n) (some (e, no_message, p))
  refused n e p h z = cc

  tag-Shrinks :
      (n tag m : ℕ) (p : Peer S) → p.recv_data.len ≤ n → Each (Shrinks n) (parse_tag tag m p)
  unfolding parse_tag
  tag-Shrinks n tag m p h = ground (
    arith,
    plain-Shrinks n choke p h,
    plain-Shrinks n unchoke p h,
    plain-Shrinks n interested p h,
    plain-Shrinks n uninterested p h,
    sized-Shrinks n m 5 p take_have take_have-Kept h,
    sized-Shrinks n m (ceil_div8 (p.metainfo.pieces_count - 1) + 1) p (take_bitfield (m - 1))
        (λ m' q l. take_bitfield-Kept m' (m - 1) q l) h,
    sized-Shrinks n m 13 p (take_three request) (λ m' q l. take_three-Kept m' request q l) h,
    sized-Shrinks n m 13 p (take_three cancel) (λ m' q l. take_three-Kept m' cancel q l) h,
    piece-Shrinks n m p h,
    refused n invalid_message_tag p refl,
  )

  message-Shrinks :
      (e : ErrorKind) (p : Peer S) → Each (Shrinks p.recv_data.len) (parse_message e p)
  unfolding parse_message
  message-Shrinks e p = elim (Bool-cases (ltb p.recv_data.len 4)) [
    | inl w ↦ rw w (λ z. cc)
    | inr w ↦ rw w (
        Each-bind (λ _. Unit {0}) (Shrinks p.recv_data.len) (peek_read_u32 p.recv_data) _
          (Each-any _)
          λ announced _. elim (Bool-cases (announced == 0)) [
            | inl z ↦ rw z (
                Each-bind (λ (r : Ring). r.len < p.recv_data.len) (Shrinks p.recv_data.len)
                  (consume_front p.recv_data 4) _
                  (consume_front-Left 4 p.recv_data.len p.recv_data (omega arith) (omega arith))
                  λ r l _. l)
            | inr z ↦ elim (Bool-cases (ltb max_message_length announced)) [
              | inl l ↦ rw (z, l) (λ t. cc)
              | inr l ↦ elim (Bool-cases (ltb p.recv_data.len 5)) [
                | inl v ↦ rw (z, l, v) (λ t. cc)
                | inr v ↦
                    rw (z, l, v)
                      (Each-bind (λ _. Unit {0}) (Shrinks p.recv_data.len) (get p.recv_data 4) _
                        (Each-any _)
                        λ tag _. tag-Shrinks p.recv_data.len tag announced p (omega arith))
              ]
            ]
          ])
  ]

  -- At most `n` bytes are left behind the handshake.
  abbrev KeptFirst : ℕ → ErrorKind × Peer S → Type 0
  KeptFirst n x = x.1.recv_data.len ≤ n

  read_handshake-KeptFirst : (p : Peer S) → Each (KeptFirst p.recv_data.len) (read_handshake p)
  unfolding read_handshake
  read_handshake-KeptFirst p =
      let n = p.recv_data.len in
      Each-bind (Left n) (KeptFirst n) (pop_many handshake_length p.recv_data) _
        (pop_many-Left n handshake_length p.recv_data (omega arith)) λ x l. ground arith

  check_handshaked-KeptFirst : (p : Peer S) → Each (KeptFirst p.recv_data.len) (check_handshaked p)
  unfolding check_handshaked
  check_handshaked-KeptFirst p = ground (arith, read_handshake-KeptFirst p)

  -- Where a parse succeeds, it has taken bytes off the ring.
  pub message_parse-Shrinks : (p : Peer S) → Each (Shrinks p.recv_data.len) (message_parse p)
  unfolding message_parse
  message_parse-Shrinks p =
      let n = p.recv_data.len in
      Each-bind (KeptFirst n) (Shrinks n) (check_handshaked p) _ (check_handshaked-KeptFirst p)
        λ (err, q) l. elim (Bool-cases (is_fatal err)) [
          | inl f ↦ rw f (λ z. cc (z, is_fatal-is_error err f))
          | inr f ↦ rw f (
              Each-map (Shrinks q.recv_data.len) (Shrinks n) (parse_message err q)
                (λ x h z. omega (arith, h z)) (message-Shrinks err q))
        ]
