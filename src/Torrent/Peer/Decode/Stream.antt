-- ===== src/Torrent/Peer/Decode/Stream.antt =====
-- What `decode` makes of a stream that arrives in parts.
use c_fs_subscriber.Base.{
  ltb, ◌==◌, if◌then◌else◌, ltb→le, Bool-cases, length, get_or, drop, length-append, length-drop,
  get_or-append, drop-append, take-append, ℕ, ◌+◌, ◌-◌, ◌≤◌, ◌≡◌, refl, inl, inr, false, List, ◌++◌,
  arith,
}
use c_fs_subscriber.Pg.Bitarray.{ceil_div8}
use c_fs_subscriber.Torrent.Metainfo.{Metainfo}
use c_fs_subscriber.Torrent.Peer.{
  Message, request, cancel, invalid_announced_length, max_message_length,
}
use c_fs_subscriber.Torrent.Peer.Fields.{word}
use c_fs_subscriber.Torrent.Peer.Decode.{
  Decoded, waits, refuses, gives, when_there, exactly, decode, decode_tag, decode_have,
  decode_bitfield, decode_three, decode_piece, decode_data,
}

-- What is decided stays so when `more` arrives, which then stands behind what is left.
abbrev pub Extends : List ℕ → Decoded → Decoded → Type 0
Extends more waits d = Unit {0}
Extends more (refuses k) d = d ≡ refuses k
Extends more (gives msg rest) d = d ≡ gives msg (rest ++ more)

module _ (m : Metainfo) (c : ℕ) (more : List ℕ) where
  word-append : (bs : List ℕ) → 4 ≤ length bs → word (bs ++ more) ≡ word bs
  word-append bs h =
      rw
        (
          get_or-append bs more 0 0 (omega arith),
          get_or-append bs more 1 0 (omega arith),
          get_or-append bs more 2 0 (omega arith),
          get_or-append bs more 3 0 (omega arith),
        )
        refl

  when_there-Extends :
      (size : ℕ) (bs : List ℕ) (d d' : Decoded)
      → (size ≤ length bs → Extends more d d')
      → Extends more (when_there size bs d) (when_there size (bs ++ more) d')
  when_there-Extends size bs d d' f = elim (Bool-cases (ltb (length bs) size)) [
    | inl w ↦ rw w tt
    | inr w ↦
        let there : ltb (length (bs ++ more)) size ≡ false =
          ground (arith, length-append bs more) in
        rw (w, there) (f (ltb→le _ _ w))
  ]

  exactly-Extends :
      (n size : ℕ) (bs : List ℕ) (d d' : Decoded)
      → (size ≤ length bs → Extends more d d')
      → Extends more (exactly n size bs d) (exactly n size (bs ++ more) d')
  exactly-Extends n size bs d d' f = elim (Bool-cases (n == size + 1)) [
    | inl e ↦ rw e (when_there-Extends size bs d d' f)
    | inr e ↦ rw e refl
  ]

  have-Extends :
      (bs : List ℕ) → 4 ≤ length bs → Extends more (decode_have m bs) (decode_have m (bs ++ more))
  unfolding decode_have
  have-Extends bs h = rw (word-append bs h, drop-append 4 bs more h) (ground arith)

  bitfield-Extends :
      (size : ℕ) (bs : List ℕ)
      → size ≤ length bs
      → Extends more (decode_bitfield size bs) (decode_bitfield size (bs ++ more))
  unfolding decode_bitfield
  bitfield-Extends size bs h = rw (take-append size bs more h, drop-append size bs more h) refl

  three-Extends :
      (msg : ℕ → ℕ → ℕ → Message) (bs : List ℕ)
      → 12 ≤ length bs
      → Extends more (decode_three msg bs) (decode_three msg (bs ++ more))
  unfolding decode_three
  three-Extends msg bs h =
      rw
        (
          word-append bs (omega arith),
          drop-append 4 bs more (omega arith),
          drop-append 8 bs more (omega arith),
          drop-append 12 bs more h,
          word-append (drop 4 bs) (omega (arith, length-drop 4 bs)),
          word-append (drop 8 bs) (omega (arith, length-drop 8 bs)),
        )
        refl

  data-Extends :
      (index begin size : ℕ) (bs : List ℕ)
      → size ≤ length bs
      → Extends more
          (decode_data m c index begin size bs)
          (decode_data m c index begin size (bs ++ more))
  unfolding decode_data
  data-Extends index begin size bs h =
      rw (take-append size bs more h, drop-append size bs more h) (ground arith)

  piece-Extends :
      (n : ℕ) (bs : List ℕ)
      → 10 ≤ n
      → n - 1 ≤ length bs
      → Extends more (decode_piece m c n bs) (decode_piece m c n (bs ++ more))
  unfolding decode_piece
  piece-Extends n bs low h =
      rw
        (
          word-append bs (omega arith),
          drop-append 4 bs more (omega arith),
          drop-append 8 bs more (omega arith),
          word-append (drop 4 bs) (omega (arith, length-drop 4 bs)),
        )
        (data-Extends (word bs) (word (drop 4 bs)) (n - 9) (drop 8 bs)
          (omega (arith, length-drop 8 bs)))

  sized_piece-Extends :
      (n : ℕ) (bs : List ℕ)
      → Extends more
          (if ltb n 10
            then refuses invalid_announced_length
            else when_there (n - 1) bs (decode_piece m c n bs))
          (if ltb n 10
            then refuses invalid_announced_length
            else when_there (n - 1) (bs ++ more) (decode_piece m c n (bs ++ more)))
  sized_piece-Extends n bs = elim (Bool-cases (ltb n 10)) [
    | inl e ↦ rw e refl
    | inr e ↦ rw e (
        when_there-Extends (n - 1) bs (decode_piece m c n bs) (decode_piece m c n (bs ++ more))
          (piece-Extends n bs (ltb→le _ _ e)))
  ]

  tag-Extends :
      (tag n : ℕ) (bs : List ℕ)
      → Extends more (decode_tag m c tag n bs) (decode_tag m c tag n (bs ++ more))
  unfolding decode_tag
  tag-Extends tag n bs =
      let bits = ceil_div8 (m.pieces_count - 1) in
      ground (
        arith,
        exactly-Extends n 4 bs (decode_have m bs) (decode_have m (bs ++ more)) (have-Extends bs),
        exactly-Extends n bits bs (decode_bitfield bits bs) (decode_bitfield bits (bs ++ more))
            (bitfield-Extends bits bs),
        exactly-Extends n 12 bs (decode_three request bs) (decode_three request (bs ++ more))
            (three-Extends request bs),
        exactly-Extends n 12 bs (decode_three cancel bs) (decode_three cancel (bs ++ more))
            (three-Extends cancel bs),
        sized_piece-Extends n bs,
      )

  -- What `decode` says of the bytes that have arrived does not change when more arrive: a message
  -- that was there is there, with the new bytes behind what is left, and a wrong one stays wrong, for the
  -- same reason. So it does not matter in which parts the bytes are read.
  pub decode-append : (bs : List ℕ) → Extends more (decode m c bs) (decode m c (bs ++ more))
  unfolding decode
  decode-append bs = elim (Bool-cases (ltb (length bs) 4)) [
    | inl w ↦ rw w tt
    | inr w ↦
        let four : 4 ≤ length bs = ltb→le _ _ w in
        let there : ltb (length (bs ++ more)) 4 ≡ false = ground (arith, length-append bs more) in
        rw (w, there, word-append bs four)
          (elim (Bool-cases (word bs == 0)) [
            | inl z ↦ rw (z, drop-append 4 bs more four) refl
            | inr z ↦ elim (Bool-cases (ltb max_message_length (word bs))) [
              | inl l ↦ rw (z, l) refl
              | inr l ↦
                  rw (z, l)
                    (when_there-Extends 5 bs (decode_tag m c (get_or bs 4 0) (word bs) (drop 5 bs))
                      (decode_tag m c (get_or (bs ++ more) 4 0) (word bs) (drop 5 (bs ++ more)))
                      (λ five.
                        rw (get_or-append bs more 4 0 five, drop-append 5 bs more five)
                          (tag-Extends (get_or bs 4 0) (word bs) (drop 5 bs))))
            ]
          ])
  ]
