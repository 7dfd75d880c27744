-- ===== src/Torrent/Peer/Parse.antt =====
-- `peer_check_handshaked` and `peer_message_parse`. Where the result is an error, the program does not
-- read the message, which is then `no_message`. `none` is a failed `assert`, a read outside of the ring
-- or a write through `NULL`. The log of the last byte of a bitfield is left out with the logger.
use c_fs_subscriber.Base.{
  ltb, leb, ◌==◌, if◌then◌else◌, drop, ◌>>=◌, ◌>>◌, assert, add64, add32, ℕ, ◌+◌, ◌-◌, ◌*◌, ◌/◌,
  ◌%◌, true, not, ◌||◌, Option, some, List, [], ◌∷◌,
}
use c_fs_subscriber.Pg.Bitarray.{ceil_div8}
use c_fs_subscriber.Pg.Pool
use c_fs_subscriber.Pg.Ring.{get, consume_front}
use c_fs_subscriber.Pg.Span.{memcmp_eq}
use c_fs_subscriber.Torrent.Metainfo.{block_length, piece_length_of, block_for_piece_length}
use c_fs_subscriber.Torrent.Peer.{
  ErrorKind, no_error, need_more, wrong_handshake_header, wrong_handshake_hash,
  invalid_announced_length, invalid_message_tag, invalid_have, invalid_piece, is_fatal, Message,
  no_message, heartbeat, choke, unchoke, interested, uninterested, bitfield, have, request, piece,
  cancel, Peer, handshake_length, max_message_length,
}
use c_fs_subscriber.Torrent.Peer.Wire.{read_u32, peek_read_u32, pop_many}

-- "\x13" "BitTorrent protocol"
abbrev pub header : List ℕ
header =
    19 ∷ b'B' ∷ b'i' ∷ b't' ∷ b'T' ∷ b'o' ∷ b'r' ∷ b'r' ∷ b'e' ∷ b'n' ∷ b't' ∷ b' ' ∷ b'p' ∷ b'r'
    ∷ b'o' ∷ b't' ∷ b'o' ∷ b'c' ∷ b'o' ∷ b'l' ∷ []

-- `__builtin_bitreverse8`
unfoldable pub bitreverse8 : ℕ → ℕ
bitreverse8 x =
    x % 2 * 128
    + x / 2 % 2 * 64
    + x / 4 % 2 * 32
    + x / 8 % 2 * 16
    + x / 16 % 2 * 8
    + x / 32 % 2 * 4
    + x / 64 % 2 * 2
    + x / 128 % 2

unfoldable pub bitreverse_all : List ℕ → List ℕ
unfolding bitreverse8
bitreverse_all [] = []
bitreverse_all (x ∷ xs) = bitreverse8 x ∷ bitreverse_all xs

-- the return of `peer_message_parse`
abbrev pub Parsed : Type 0 → Type 0
Parsed S = Option (ErrorKind × Message × Peer S)

module _ {S : Type 0} where
  -- `peer_check_handshaked` once all bytes are there
  unfoldable pub read_handshake : Peer S → Option (ErrorKind × Peer S)
  read_handshake p = do
    (bytes, ring) ← pop_many handshake_length p.recv_data
    let p' = record p { recv_data = ring }
    if not (memcmp_eq header bytes)
        then some (wrong_handshake_header, p')
        else if not (memcmp_eq p.download.info_hash (drop 28 bytes))
        then some (wrong_handshake_hash, p')
        else (do
          assert (add64 ring.len handshake_length == p.recv_data.len)
          some (no_error, record p' { handshaked = true }))

  unfoldable pub check_handshaked : Peer S → Option (ErrorKind × Peer S)
  check_handshaked p =
      if p.handshaked
      then some (no_error, p)
      else if ltb p.recv_data.len handshake_length
      then some (need_more, p)
      else read_handshake p

  -- `case PT_CHOKE` to `case PT_UNINTERESTED`
  unfoldable pub parse_plain : Message → Peer S → Parsed S
  parse_plain msg p = do
    ring ← consume_front p.recv_data 5
    some (no_error, msg, record p { recv_data = ring })

  -- The two tests that stand first in the cases of a fixed length, and the step over the length and the
  -- tag.
  unfoldable pub sized : ℕ → ℕ → Peer S → (Peer S → Parsed S) → Parsed S
  sized announced_len expected p k =
      if not (announced_len == expected)
      then some (invalid_announced_length, no_message, p)
      else if ltb p.recv_data.len (add32 announced_len 4)
      then some (need_more, no_message, p)
      else (consume_front p.recv_data 5 >>= λ ring. k (record p { recv_data = ring }))

  -- the rest of `case PT_HAVE`
  unfoldable pub take_have : Peer S → Parsed S
  unfolding read_u32
  take_have p = do
    (x, ring) ← read_u32 p.recv_data
    let p' = record p { recv_data = ring }
    if ltb p.metainfo.pieces_count x
        then some (invalid_have, no_message, p')
        else some (no_error, have x, p')

  unfoldable pub parse_have : ℕ → Peer S → Parsed S
  unfolding sized take_have
  parse_have announced_len p = sized announced_len 5 p take_have

  -- the rest of `case PT_BITFIELD`
  unfoldable pub take_bitfield : ℕ → Peer S → Parsed S
  unfolding pop_many bitreverse_all
  take_bitfield count p = do
    (bytes, ring) ← pop_many count p.recv_data
    some (no_error, bitfield (bitreverse_all bytes), record p { recv_data = ring })

  unfoldable pub parse_bitfield : ℕ → Peer S → Parsed S
  unfolding sized take_bitfield
  parse_bitfield announced_len p =
      let expected_bitfield_len = ceil_div8 (p.metainfo.pieces_count - 1) in
      sized announced_len (expected_bitfield_len + 1) p (take_bitfield (announced_len - 1))

  -- the rest of `case PT_REQUEST` and `case PT_CANCEL`
  unfoldable pub take_three : (ℕ → ℕ → ℕ → Message) → Peer S → Parsed S
  unfolding read_u32
  take_three msg p = do
    (index, ring) ← read_u32 p.recv_data
    (begin, ring') ← read_u32 ring
    (len, ring'') ← read_u32 ring'
    some (no_error, msg index begin len, record p { recv_data = ring'' })

  unfoldable pub parse_three : (ℕ → ℕ → ℕ → Message) → ℕ → Peer S → Parsed S
  unfolding sized take_three
  parse_three msg announced_len p = sized announced_len 13 p (take_three msg)

  -- The data of a piece that is valid goes to a chunk of the block pool.
  unfoldable pub fetch_data : ℕ → ℕ → ℕ → Peer S → Parsed S
  unfolding pop_many
  fetch_data index begin data_len p = do
    let (chunk, pool) = Pool.alloc p.block_pool
    c ← chunk
    (bytes, ring) ← pop_many data_len p.recv_data
    some (no_error, piece index begin c bytes, record p { recv_data = ring; block_pool = pool })

  -- The tests on a piece, behind its index and its beginning.
  unfoldable pub parse_data : ℕ → ℕ → ℕ → Peer S → Parsed S
  unfolding fetch_data
  parse_data index begin data_len p =
      if leb p.metainfo.pieces_count index
        || ltb (piece_length_of p.metainfo index) (add64 begin data_len)
      then some (invalid_piece, no_message, p)
      else (block_for_piece_length p.metainfo index (begin / block_length) >>= λ expected.
          if not (data_len == expected)
          then some (invalid_piece, no_message, p)
          else fetch_data index begin data_len p)

  unfoldable pub parse_piece : ℕ → Peer S → Parsed S
  unfolding read_u32 parse_data
  parse_piece announced_len p =
      if ltb announced_len 10
      then some (invalid_announced_length, no_message, p)
      else if ltb p.recv_data.len (add32 announced_len 4)
      then some (need_more, no_message, p)
      else (do
        ring ← consume_front p.recv_data 5
        (index, ring') ← read_u32 ring
        (begin, ring'') ← read_u32 ring'
        parse_data index begin (announced_len - 9) (record p { recv_data = ring'' }))

  -- `switch (tag)`
  unfoldable pub parse_tag : ℕ → ℕ → Peer S → Parsed S
  unfolding parse_plain parse_have parse_bitfield parse_three parse_piece
  parse_tag tag n p =
      if tag == 0
      then parse_plain choke p
      else if tag == 1
      then parse_plain unchoke p
      else if tag == 2
      then parse_plain interested p
      else if tag == 3
      then parse_plain uninterested p
      else if tag == 4
      then parse_have n p
      else if tag == 5
      then parse_bitfield n p
      else if tag == 6
      then parse_three request n p
      else if tag == 7
      then parse_piece n p
      else if tag == 8
      then parse_three cancel n p
      else some (invalid_message_tag, no_message, p)

  -- `peer_message_parse` behind the handshake, whose result is `err`
  unfoldable pub parse_message : ErrorKind → Peer S → Parsed S
  unfolding peek_read_u32 parse_tag
  parse_message err p = if ltb p.recv_data.len 4 then some (need_more, no_message, p) else (do
    announced_len ← peek_read_u32 p.recv_data
    if announced_len == 0
        then (do
          ring ← consume_front p.recv_data 4
          some (err, heartbeat, record p { recv_data = ring }))
        else if ltb max_message_length announced_len
        then some (invalid_announced_length, no_message, p)
        else if ltb p.recv_data.len 5
        then some (need_more, no_message, p)
        else (get p.recv_data 4 >>= λ tag. parse_tag tag announced_len p))

  unfoldable pub message_parse : Peer S → Parsed S
  unfolding check_handshaked parse_message
  message_parse p = check_handshaked p >>= λ (err, p').
      if is_fatal err then some (err, no_message, p') else parse_message err p'
