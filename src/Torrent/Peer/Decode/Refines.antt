-- ===== src/Torrent/Peer/Decode/Refines.antt =====
-- The parser on the ring, against `decode` on the bytes that the ring holds.
use c_fs_subscriber.Base.{
  ltb, leb, ◌==◌, ltb→le, ==_iff, Bool-cases, length, drop, length-drop, drop-drop, add64, add32, ℕ,
  ◌+◌, ◌-◌, ◌^◌, ◌≤◌, ◌<◌, ◌≡◌, refl, sym, ap, ◌∙◌, subst, inl, inr, true, false, ◌||◌, none, some,
  List, arith,
}
use c_fs_subscriber.Pg.Pool
use c_fs_subscriber.Pg.Pool.{Pool}
use c_fs_subscriber.Pg.Ring.{Ring}
use c_fs_subscriber.Pg.Bitarray.{ceil_div8}
use c_fs_subscriber.Torrent.Metainfo.{piece_length_of}
use c_fs_subscriber.Torrent.Metainfo.Sound.{IsSound}
use c_fs_subscriber.Torrent.Peer.{no_error, need_more, is_fatal, Message, piece, Peer}
use c_fs_subscriber.Torrent.Peer.Decode.Lengths.{length_at_lem}
use c_fs_subscriber.Torrent.Peer.Fields.{word, word-Reads}
use c_fs_subscriber.Torrent.Peer.Decode.{
  Decoded, waits, refuses, gives, exactly, decode_data, length_at, decode_have, decode_bitfield,
  decode_three,
}
use c_fs_subscriber.Torrent.Peer.Parse.{
  Parsed, parse_plain, sized, take_have, take_bitfield, take_three, parse_have, parse_bitfield,
  parse_three, parse_data,
}
use c_fs_subscriber.Torrent.Peer.Wire.Holds.{Holds, Holds-len, consume_front-Holds, pop_many-Reads}

-- The block pool behind a message: a piece takes the first free chunk.
abbrev pub pool_after : Message → Pool → Pool
pool_after (piece index begin c bytes) pool = (Pool.alloc pool).1
pool_after _ pool = pool

-- A parse returns what the bytes say. If the message is not all there, nothing has changed; if it is
-- refused, the error is one for which the connection is closed; if it
-- is there, it has been taken off the ring, whose capacity is the same, and nothing else has changed but
-- the block pool.
abbrev pub Agrees : {S : Type 0} → Peer S → Parsed S → Decoded → Type 0
Agrees p none d = ⊥
Agrees p (some (e, msg, p')) waits = (e ≡ need_more) × (p' ≡ p)
Agrees p (some (e, msg, p')) (refuses k) = (e ≡ k) × (is_fatal k ≡ true)
Agrees p (some (e, msg, p')) (gives msg' bs) =
    (e ≡ no_error)
    × (msg ≡ msg')
    × Holds p'.recv_data bs
    × (p'.recv_data.cap ≡ p.recv_data.cap)
    × (p' ≡ record p { recv_data = p'.recv_data; block_pool = pool_after msg' p.block_pool })

module _ {S : Type 0} (p : Peer S) (bs : List ℕ) (h : Holds p.recv_data bs)
    (there : 5 ≤ length bs) where
  pub plain_Agrees :
      (msg : Message)
      → pool_after msg p.block_pool ≡ p.block_pool
      → Agrees p (parse_plain msg p) (gives msg (drop 5 bs))
  unfolding parse_plain
  plain_Agrees msg same =
      let (r, e, h', c) = consume_front-Holds 5 bs h there in
      rw e (refl, refl, h', c, ap (λ b. record p { recv_data = r; block_pool = b }) (sym same))

  -- The two tests on the length, on both sides.
  sized_Agrees :
      (n size : ℕ) (k : Peer S → Parsed S) (d : Decoded)
      → n ≤ 134217728
      → ((r : Ring)
          → Holds r (drop 5 bs)
          → r.cap ≡ p.recv_data.cap
          → size ≤ length (drop 5 bs)
          → n ≡ size + 1
          → Agrees p (k (record p { recv_data = r })) d)
      → Agrees p (sized n (size + 1) p k) (exactly n size (drop 5 bs) d)
  unfolding sized
  sized_Agrees n size k d small f = elim (Bool-cases (n == size + 1)) [
    | inr e ↦ rw e (refl, refl)
    | inl e ↦
        let count : n ≡ size + 1 = (==_iff n (size + 1)).0 e in
        elim (Bool-cases (ltb (length (drop 5 bs)) size)) [
          | inl w ↦
              let short : ltb p.recv_data.len (add32 n 4) ≡ true =
                ground (arith, Holds-len h, length-drop 5 bs) in
              rw (e, w, short) (refl, refl)
          | inr w ↦
              let full : ltb p.recv_data.len (add32 n 4) ≡ false =
                ground (arith, Holds-len h, length-drop 5 bs) in
              let (r, t, h', c) = consume_front-Holds 5 bs h there in
              rw (e, w, full, t) (f r h' c (ltb→le _ _ w) count)
        ]
  ]

  pub have_Agrees :
      (n : ℕ)
      → n ≤ 134217728
      → Agrees p (parse_have n p) (exactly n 4 (drop 5 bs) (decode_have p.metainfo (drop 5 bs)))
  unfolding parse_have decode_have
  have_Agrees n small =
      let m = p.metainfo in
      sized_Agrees n 4 take_have (decode_have m (drop 5 bs)) small λ r h' c l q.
        let (r', e, h'', c') = word-Reads (drop 5 bs) h' l in
        rw e (elim (Bool-cases (ltb m.pieces_count (word (drop 5 bs)))) [
          | inl bad ↦ rw bad (refl, refl)
          | inr good ↦ rw good (refl, refl, h'', c' ∙ c, refl)
        ])

  pub bitfield_Agrees :
      (n : ℕ)
      → n ≤ 134217728
      → Agrees p (parse_bitfield n p) (
          exactly n
            (ceil_div8 (p.metainfo.pieces_count - 1))
            (drop 5 bs)
            (decode_bitfield (ceil_div8 (p.metainfo.pieces_count - 1)) (drop 5 bs)))
  unfolding parse_bitfield decode_bitfield
  bitfield_Agrees n small =
      let size = ceil_div8 (p.metainfo.pieces_count - 1) in
      let b = drop 5 bs in
      sized_Agrees n size (take_bitfield (n - 1)) (decode_bitfield size b) small λ r h' c l q.
        let count : n - 1 ≡ size = omega arith in
        let (r', e, h'', c') = pop_many-Reads size b {r = r} h' l in
        rw (count, e) (refl, refl, h'', c' ∙ c, refl)

  pub three_Agrees :
      (n : ℕ) (msg : ℕ → ℕ → ℕ → Message)
      → n ≤ 134217728
      → ((a b c : ℕ) → pool_after (msg a b c) p.block_pool ≡ p.block_pool)
      → Agrees p (parse_three msg n p) (exactly n 12 (drop 5 bs) (decode_three msg (drop 5 bs)))
  unfolding parse_three decode_three
  three_Agrees n msg small same =
      let b = drop 5 bs in
      sized_Agrees n 12 (take_three msg) (decode_three msg b) small λ r h' c l q.
        let (r1, e1, h1, c1) = word-Reads b h' (omega arith) in
        let (r2, e2, h2, c2) = word-Reads (drop 4 b) h1 (omega (arith, length-drop 4 b)) in
        let h2' = subst (Holds r2) (drop-drop 4 4 b) h2 in
        let (r3, e3, h3, c3) = word-Reads (drop 8 b) h2' (omega (arith, length-drop 8 b)) in
        let h3' = subst (Holds r3) (drop-drop 4 8 b) h3 in
        rw (e1, e2, e3)
          (
            refl,
            refl,
            h3',
            c3 ∙ c2 ∙ c1 ∙ c,
            ap (λ q. record p { recv_data = r3; block_pool = q }) (sym (same _ _ _)),
          )

  module _ (sound : IsSound p.metainfo) (c : ℕ) (pool : Pool)
      (free : Pool.alloc p.block_pool ≡ (some c, pool)) where
    pub data_Agrees :
        (index begin size : ℕ) (b : List ℕ) (r : Ring)
        → 0 < size
        → size ≤ 134217728
        → begin < 2 ^ 32
        → Holds r b
        → r.cap ≡ p.recv_data.cap
        → size ≤ length b
        → Agrees p
            (parse_data index begin size (record p { recv_data = r }))
            (decode_data p.metainfo c index begin size b)
    unfolding parse_data decode_data
    data_Agrees index begin size b r low small begins h' q l =
        let m = p.metainfo in
        let wrap : add64 begin size ≡ begin + size = omega arith in
        elim (Bool-cases
          (leb m.pieces_count index || ltb (piece_length_of m index) (begin + size))) [
            | inl bad ↦ rw (wrap, bad) (refl, refl)
            | inr good ↦
                let inside : index < m.pieces_count = ground arith in
                let within : begin < piece_length_of m index = ground arith in
                let (r', e, h'', c') = pop_many-Reads size b {r = r} h' l in
                elim (Bool-cases (size == length_at m index begin)) [
                  | inl same ↦
                      rw (wrap, good, length_at_lem sound index begin inside within, same, free, e)
                        (
                          refl,
                          refl,
                          h'',
                          c' ∙ q,
                          ap (λ t. record p { recv_data = r'; block_pool = t })
                              (sym (ap (λ t. t.1) free)),
                        )
                  | inr other ↦
                      rw (wrap, good, length_at_lem sound index begin inside within, other)
                        (refl, refl)
                ]
          ]
