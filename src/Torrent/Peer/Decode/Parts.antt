-- ===== src/Torrent/Peer/Decode/Parts.antt =====
-- The parser on what other clients send: requests, answers, and a stream in parts.
use c_fs_subscriber.Base.{
  length, All, ℕ, ◌-◌, ◌*◌, ◌/◌, ◌%◌, ◌^◌, ◌<◌, min, ◌≡◌, sym, ap, ◌∙◌, subst, ◌≢◌, ◌⊎◌, inl, inr,
  true, none, some, List, ◌++◌,
}
use c_fs_subscriber.Pg.Pool
use c_fs_subscriber.Pg.Pool.{Pool}
use c_fs_subscriber.Torrent.Metainfo.{block_length}
use c_fs_subscriber.Torrent.Metainfo.Sound.{IsSound}
use c_fs_subscriber.Torrent.Peer.{
  Peer, request, piece, ErrorKind, Message, no_error, need_more, is_fatal,
}
use c_fs_subscriber.Torrent.Peer.Decode.{Decoded, decode, gives, waits, refuses}
use c_fs_subscriber.Torrent.Peer.Decode.Refines.{Agrees}
use c_fs_subscriber.Torrent.Peer.Decode.Stream.{Extends, decode-append}
use c_fs_subscriber.Torrent.Peer.Decode.Trip.{decode-request_bytes, decode-answer, piece_bytes}
use c_fs_subscriber.Torrent.Peer.Decode.Whole.{message_parse-Agrees}
use c_fs_subscriber.Torrent.Peer.Parse.{message_parse, Parsed}
use c_fs_subscriber.Torrent.Peer.Send.{request_bytes}
use c_fs_subscriber.Torrent.Peer.Wire.Holds.{Holds}

-- A peer of a sound torrent after the handshake, whose ring holds the bytes `bs`, and whose block pool
-- has the chunk `c` to give.
pub record IsReady {S : Type 0} (p : Peer S) (c : ℕ) (bs : List ℕ) : Type 0 where
  pub sound : IsSound p.metainfo
  pub done : p.handshaked ≡ true
  pub held : Holds p.recv_data bs
  pub bytes : All (λ b. b < 256) bs
  pub free : (Pool.alloc p.block_pool).0 ≡ some c

-- The same message, and `more` behind what is left on the second ring.
abbrev pub Same : {S : Type 0} → List ℕ → Message → Peer S → Message → Peer S → Type 0
Same more msg p msg' q =
    (msg ≡ msg') × (rest : List ℕ) × Holds p.recv_data rest × Holds q.recv_data (rest ++ more)

module _ {S : Type 0} where
  refused :
      (q : Peer S) (o : Parsed S) (r : ErrorKind)
      → Agrees q o (refuses r)
      → (m : Message) × (q1 : Peer S) × (o ≡ some (r, m, q1))
  refused q none r a = absurd a
  refused q (some (e, m, q1)) r (a, _) = (m, q1, ap (λ e. some (e, m, q1)) a)

  given :
      (q : Peer S) (o : Parsed S) (msg : Message) (bs : List ℕ)
      → Agrees q o (gives msg bs)
      → (q1 : Peer S) × (o ≡ some (no_error, msg, q1)) × Holds q1.recv_data bs
  given q none msg bs a = absurd a
  given q (some (e, m, q1)) msg bs (a, same, h, _, _) =
      (q1, ap (λ e. some (e, m, q1)) a ∙ ap (λ m. some (no_error, m, q1)) same, h)

  parsed :
      (p : Peer S) (c : ℕ) (bs : List ℕ)
      → IsReady p c bs
      → Agrees p (message_parse p) (decode p.metainfo c bs)
  parsed p c bs r =
      message_parse-Agrees p bs r.held r.sound r.bytes c (Pool.alloc p.block_pool).1
        (ap (λ o. (o, (Pool.alloc p.block_pool).1)) r.free) r.done

  -- A request that a client sends is parsed by a peer that is ready as that request, and what follows
  -- it is left on the ring.
  pub request_round_trip :
      (p : Peer S) (c index begin len : ℕ) (rest : List ℕ)
      → index < 2 ^ 32
      → begin < 2 ^ 32
      → len < 2 ^ 32
      → IsReady p c (request_bytes index begin len ++ rest)
      → Agrees p (message_parse p) (gives (request index begin len) rest)
  request_round_trip p c index begin len rest i b l r =
      subst (Agrees p (message_parse p))
        (decode-request_bytes p.metainfo c index begin len rest i b l)
        (parsed p c (request_bytes index begin len ++ rest) r)

  -- The answer to any request of the client is accepted by a peer that is ready: a message with the
  -- piece and the offset of a block of the torrent, and as many bytes as the block has, is parsed as that
  -- piece, with its bytes in the first free chunk, and what follows it is left on the ring.
  pub answer_accepted :
      (p : Peer S) (c block : ℕ) (bytes rest : List ℕ)
      → block < p.metainfo.blocks_count
      → length bytes ≡ min block_length (p.metainfo.length - block_length * block)
      → IsReady p c (
          piece_bytes
            (block / p.metainfo.blocks_per_piece)
            (16384 * (block % p.metainfo.blocks_per_piece))
            bytes
          ++ rest)
      → Agrees p (message_parse p) (
          gives
            (piece
              (block / p.metainfo.blocks_per_piece)
              (16384 * (block % p.metainfo.blocks_per_piece))
              c
              bytes)
            rest)
  answer_accepted p c block bytes rest q l r =
      subst (Agrees p (message_parse p)) (decode-answer c block bytes rest r.sound q l)
        (parsed p c _ r)

  follows :
      (p q p1 : Peer S) (o' : Parsed S) (d d' : Decoded) (more : List ℕ) (e : ErrorKind)
      (msg : Message)
      → e ≢ need_more
      → Agrees p (some (e, msg, p1)) d
      → Agrees q o' d'
      → Extends more d d'
      → (msg' : Message) × (q1 : Peer S) × (o' ≡ some (e, msg', q1))
        × ((is_fatal e ≡ true) ⊎ Same more msg p1 msg' q1)
  follows p q p1 o' waits d' more e msg k (a, _) a' x = absurd (k a)
  follows p q p1 o' (refuses r) d' more e msg k (a, f) a' x =
      let (m', q1, same) = refused q o' r (subst (Agrees q o') x a') in
      (
        m',
        q1,
        same ∙ ap (λ e. some (e, m', q1)) (sym a),
        inl (subst (λ e. is_fatal e ≡ true) (sym a) f),
      )
  follows p q p1 o' (gives msg' rest) d' more e msg k (a, same, h, _, _) a' x =
      let (q1, same', h') = given q o' msg' (rest ++ more) (subst (Agrees q o') x a') in
      (msg', q1, same' ∙ ap (λ e. some (e, msg', q1)) (sym a), inr (same, rest, h, h'))

  -- It does not matter in which parts a stream is read. Of two peers of one torrent that are ready, the
  -- second of which has `more` bytes behind those of the first: unless the parser waits on the first, it
  -- returns the same error code on both. That is one for which the connection is closed, or it gives
  -- both the same message, and leaves on the second ring what it leaves on the first, followed by
  -- `more`.
  pub parts_lem :
      (p q : Peer S) (c : ℕ) (bs more : List ℕ) (e : ErrorKind) (msg : Message) (p1 : Peer S)
      → p.metainfo ≡ q.metainfo
      → IsReady p c bs
      → IsReady q c (bs ++ more)
      → message_parse p ≡ some (e, msg, p1)
      → e ≢ need_more
      → (msg' : Message) × (q1 : Peer S) × (message_parse q ≡ some (e, msg', q1))
        × ((is_fatal e ≡ true) ⊎ Same more msg p1 msg' q1)
  parts_lem p q c bs more e msg p1 same r r' returns k =
      follows p q p1 (message_parse q) (decode p.metainfo c bs) (decode p.metainfo c (bs ++ more))
        more e msg k (subst (λ o. Agrees p o (decode p.metainfo c bs)) returns (parsed p c bs r))
        (subst (λ m. Agrees q (message_parse q) (decode m c (bs ++ more))) (sym same)
          (parsed q c (bs ++ more) r'))
        (decode-append p.metainfo c more bs)
