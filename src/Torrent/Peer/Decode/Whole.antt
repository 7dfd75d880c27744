-- ===== src/Torrent/Peer/Decode/Whole.antt =====
-- A whole message: the parser, from the announced length on, against `decode`.
use c_fs_subscriber.Base.{
  ltb, ◌==◌, if◌then◌else◌, ltb→le, Bool-cases, length, get_or, drop, All, length-drop, drop-drop,
  All-drop, add32, ℕ, ◌-◌, ◌≤◌, ◌<◌, ◌≡◌, refl, sym, ◌∙◌, subst, inl, inr, true, false, none, some,
  List, arith,
}
use c_fs_subscriber.Pg.Pool
use c_fs_subscriber.Pg.Pool.{Pool}
use c_fs_subscriber.Torrent.Metainfo.Sound.{IsSound}
use c_fs_subscriber.Torrent.Peer.{
  invalid_announced_length, choke, unchoke, interested, uninterested, request, cancel, Peer,
  no_error, max_message_length,
}
use c_fs_subscriber.Torrent.Peer.Fields.{word, word-Reads, word-lt, peek-word, tag-Holds}
use c_fs_subscriber.Torrent.Peer.Decode.{refuses, when_there, decode_tag, decode_piece, decode}
use c_fs_subscriber.Torrent.Peer.Decode.Refines.{
  Agrees, plain_Agrees, have_Agrees, bitfield_Agrees, three_Agrees, data_Agrees,
}
use c_fs_subscriber.Torrent.Peer.Parse.{
  parse_piece, parse_tag, parse_message, message_parse, check_handshaked,
}
use c_fs_subscriber.Torrent.Peer.Wire.Holds.{Holds, Holds-len, consume_front-Holds}
use c_fs_subscriber.Torrent.Peer.Decode.Blocks.{Fits, Short, IsBlock, GivesBlock, decode-GivesBlock}
use c_fs_subscriber.Torrent.Peer.Parse.{Parsed}
use c_fs_subscriber.Torrent.Metainfo.{block_length}
use c_fs_subscriber.Torrent.Peer.{Message, piece}
use c_fs_subscriber.Torrent.Peer.Decode.{Decoded, waits, gives}

handshaked-check :
    {S : Type 0} (p : Peer S) → p.handshaked ≡ true → check_handshaked p ≡ some (no_error, p)
unfolding check_handshaked
handshaked-check p done = simp done

handshaked-parse :
    {S : Type 0} (p : Peer S) → p.handshaked ≡ true → message_parse p ≡ parse_message no_error p
unfolding message_parse
handshaked-parse p done = rw (handshaked-check p done) refl

module _ {S : Type 0} (p : Peer S) (bs : List ℕ) (h : Holds p.recv_data bs)
    (sound : IsSound p.metainfo) (bytes : All (λ b. b < 256) bs) (c : ℕ) (pool : Pool)
    (free : Pool.alloc p.block_pool ≡ (some c, pool)) where
  piece_Agrees :
      (n : ℕ)
      → 5 ≤ length bs
      → n ≤ 134217728
      → Agrees p (parse_piece n p) (
          if ltb n 10
          then refuses invalid_announced_length
          else when_there (n - 1) (drop 5 bs) (decode_piece p.metainfo c n (drop 5 bs)))
  unfolding parse_piece decode_piece
  piece_Agrees n there small = elim (Bool-cases (ltb n 10)) [
    | inl short ↦ rw short (refl, refl)
    | inr enough ↦
        let b = drop 5 bs in
        let more = ltb→le n 10 enough in
        elim (Bool-cases (ltb (length b) (n - 1))) [
          | inl w ↦
              let missing : ltb p.recv_data.len (add32 n 4) ≡ true =
                ground (arith, Holds-len h, length-drop 5 bs) in
              rw (enough, w, missing) (refl, refl)
          | inr w ↦
              let full : ltb p.recv_data.len (add32 n 4) ≡ false =
                ground (arith, Holds-len h, length-drop 5 bs) in
              let l : n - 1 ≤ length b = ltb→le _ _ w in
              let (r, t, h', c') = consume_front-Holds 5 bs h there in
              let (r1, e1, h1, c1) = word-Reads b h' (omega arith) in
              let (r2, e2, h2, c2) = word-Reads (drop 4 b) h1 (omega (arith, length-drop 4 b)) in
              let h2' = subst (Holds r2) (drop-drop 4 4 b) h2 in
              rw (enough, w, full, t, e1, e2)
                (data_Agrees p bs h there sound c pool free (word b) (word (drop 4 b)) (n - 9)
                  (drop 8 b) r2 (omega arith) (omega arith)
                  (word-lt (drop 4 b) (All-drop _ 4 b (All-drop _ 5 bs bytes))) h2' (c2 ∙ c1 ∙ c')
                  (omega (arith, length-drop 8 b)))
        ]
  ]

  tag_Agrees :
      (tag n : ℕ)
      → 5 ≤ length bs
      → n ≤ 134217728
      → Agrees p (parse_tag tag n p) (decode_tag p.metainfo c tag n (drop 5 bs))
  unfolding parse_tag decode_tag
  tag_Agrees tag n there small = ground (
    arith,
    plain_Agrees p bs h there choke refl,
    plain_Agrees p bs h there unchoke refl,
    plain_Agrees p bs h there interested refl,
    plain_Agrees p bs h there uninterested refl,
    have_Agrees p bs h there n small,
    bitfield_Agrees p bs h there n small,
    three_Agrees p bs h there n request small (λ _ _ _. refl),
    three_Agrees p bs h there n cancel small (λ _ _ _. refl),
    piece_Agrees n there small,
  )

  message_Agrees : Agrees p (parse_message no_error p) (decode p.metainfo c bs)
  unfolding parse_message decode
  message_Agrees = elim (Bool-cases (ltb (length bs) 4)) [
    | inl w ↦
        let short : ltb p.recv_data.len 4 ≡ true = ground (arith, Holds-len h) in
        rw (w, short) (refl, refl)
    | inr w ↦
        let four : ltb p.recv_data.len 4 ≡ false = ground (arith, Holds-len h) in
        let announced = peek-word bs h (ltb→le _ _ w) in
        elim (Bool-cases (word bs == 0)) [
          | inl zero_length ↦
              let (r, t, h', c') = consume_front-Holds 4 bs h (ltb→le _ _ w) in
              rw (w, four, announced, zero_length, t) (refl, refl, h', c', refl)
          | inr some_length ↦ elim (Bool-cases (ltb max_message_length (word bs))) [
            | inl long ↦ rw (w, four, announced, some_length, long) (refl, refl)
            | inr fits ↦ elim (Bool-cases (ltb (length bs) 5)) [
              | inl v ↦
                  let untagged : ltb p.recv_data.len 5 ≡ true = ground (arith, Holds-len h) in
                  rw (w, four, announced, some_length, fits, v, untagged) (refl, refl)
              | inr v ↦
                  let tagged : ltb p.recv_data.len 5 ≡ false = ground (arith, Holds-len h) in
                  let there = ltb→le _ _ v in
                  rw (w, four, announced, some_length, fits, v, tagged, tag-Holds bs h there)
                    (tag_Agrees (get_or bs 4 0) (word bs) there (ltb→le _ _ fits))
            ]
          ]
        ]
  ]

  -- the data of a piece fits into a chunk
  Fits-chunk :
      (o : Parsed S)
      → Agrees p o (decode p.metainfo c bs)
      → block_length ≤ p.block_pool.chunk_size
      → Fits p o
  Fits-chunk o a room = fits o (decode p.metainfo c bs) a (decode-GivesBlock p.metainfo c bs)
    where
      short : (msg : Message) → IsBlock msg → Short p msg
      short (piece index begin d bytes) h = omega arith
      short msg h = tt

      fits : (o : Parsed S) (d : Decoded) → Agrees p o d → GivesBlock d → Fits p o
      fits none d a g = tt
      fits (some (e, msg, p')) waits (a, _) g = λ k. absurd (ground arith)
      fits (some (e, msg, p')) (refuses r) (a, f) g = λ k. absurd (ground arith)
      fits (some (e, msg, p')) (gives msg' rest) (a, same, _, _, _) g =
          λ k. subst (Short p) (sym same) (short msg' g)

  pub message_parse-Agrees :
      p.handshaked ≡ true → Agrees p (message_parse p) (decode p.metainfo c bs)
  message_parse-Agrees done =
      subst (λ o. Agrees p o (decode p.metainfo c bs)) (sym (handshaked-parse p done))
        message_Agrees

  -- After the handshake, for a sound torrent, a valid ring of bytes, and a block pool with a free chunk
  -- and chunks of at least `BC_BLOCK_LENGTH` bytes, which is what `peer_init` gives them, the parser fails
  -- no `assert` and writes through no `NULL`, whatever the peer sent. What it does is what `decode` says of
  -- the bytes on the ring, over the integers: it waits without a change, or refuses the message with
  -- this error, or gives the message at their head, takes just its bytes off the ring, and changes nothing
  -- else but the block pool. The data of a piece that it gives are not longer than a chunk. `decode`
  -- follows the code, not the protocol, in what it takes for the length of a bitfield and in that it lets a
  -- `have` of the number of pieces pass.
  pub message_parse_lem :
      p.handshaked ≡ true
      → block_length ≤ p.block_pool.chunk_size
      → Agrees p (message_parse p) (decode p.metainfo c bs) × Fits p (message_parse p)
  message_parse_lem done room =
      (message_parse-Agrees done, Fits-chunk (message_parse p) (message_parse-Agrees done) room)
