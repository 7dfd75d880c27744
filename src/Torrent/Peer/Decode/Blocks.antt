-- ===== src/Torrent/Peer/Decode/Blocks.antt =====
-- What `decode` gives of a piece is not longer than a block.
use c_fs_subscriber.Base.{
  ltb, leb, ◌==◌, if◌then◌else◌, ==_iff, Bool-cases, length, get_or, drop, length-take, ℕ, ◌+◌, ◌-◌,
  ◌≤◌, ◌≡◌, inl, inr, ◌||◌, none, some, List, arith,
}
use c_fs_subscriber.Torrent.Peer.{
  invalid_announced_length, request, cancel, Peer, no_error, max_message_length,
}
use c_fs_subscriber.Torrent.Peer.Fields.{word}
use c_fs_subscriber.Torrent.Peer.Decode.{refuses, when_there, decode_tag, decode_piece, decode}
use c_fs_subscriber.Torrent.Metainfo.{Metainfo, block_length, piece_length_of}
use c_fs_subscriber.Torrent.Peer.{Message, piece}
use c_fs_subscriber.Torrent.Peer.Parse.{Parsed}
use c_fs_subscriber.Torrent.Peer.Decode.{
  Decoded, gives, exactly, decode_have, decode_data, decode_bitfield, decode_three, length_at,
}
use c_fs_subscriber.Pg.Bitarray.{ceil_div8}

-- The data of a piece are not longer than the chunk that takes them.
abbrev pub Short : {S : Type 0} → Peer S → Message → Type 0
Short p (piece index begin c bytes) = length bytes ≤ p.block_pool.chunk_size
Short p _ = Unit

abbrev pub Fits : {S : Type 0} → Peer S → Parsed S → Type 0
Fits p none = Unit
Fits p (some (e, msg, p')) = e ≡ no_error → Short p msg

-- The data of a piece are not longer than a block.
abbrev pub IsBlock : Message → Type 0
IsBlock (piece index begin c bytes) = length bytes ≤ block_length
IsBlock _ = Unit

abbrev pub GivesBlock : Decoded → Type 0
GivesBlock (gives msg rest) = IsBlock msg
GivesBlock _ = Unit

when_there-GivesBlock :
    (size : ℕ) (bs : List ℕ) (d : Decoded) → GivesBlock d → GivesBlock (when_there size bs d)
when_there-GivesBlock size bs d g = elim (Bool-cases (ltb (length bs) size)) [
  | inl w ↦ rw w tt
  | inr w ↦ rw w g
]

exactly-GivesBlock :
    (n size : ℕ) (bs : List ℕ) (d : Decoded) → GivesBlock d → GivesBlock (exactly n size bs d)
exactly-GivesBlock n size bs d g = elim (Bool-cases (n == size + 1)) [
  | inl w ↦ rw w (when_there-GivesBlock size bs d g)
  | inr w ↦ rw w tt
]

data-GivesBlock :
    (m : Metainfo) (c index begin size : ℕ) (bs : List ℕ)
    → GivesBlock (decode_data m c index begin size bs)
unfolding decode_data length_at
data-GivesBlock m c index begin size bs =
    elim (Bool-cases (leb m.pieces_count index || ltb (piece_length_of m index) (begin + size))) [
      | inl a ↦ rw a tt
      | inr a ↦ elim (Bool-cases (size == length_at m index begin)) [
        | inr b ↦ rw (a, b) tt
        | inl b ↦
            rw (a, b)
              (omega (arith, length-take size bs, (==_iff size (length_at m index begin)).0 b))
      ]
    ]

have-GivesBlock : (m : Metainfo) (bs : List ℕ) → GivesBlock (decode_have m bs)
unfolding decode_have
have-GivesBlock m bs = elim (Bool-cases (ltb m.pieces_count (word bs))) [
  | inl a ↦ rw a tt
  | inr a ↦ rw a tt
]

sized_piece-GivesBlock :
    (m : Metainfo) (c n : ℕ) (bs : List ℕ)
    → GivesBlock (
        if ltb n 10
        then refuses invalid_announced_length
        else when_there (n - 1) bs (decode_piece m c n bs))
unfolding decode_piece
sized_piece-GivesBlock m c n bs = elim (Bool-cases (ltb n 10)) [
  | inl a ↦ rw a tt
  | inr a ↦ rw a (
      when_there-GivesBlock (n - 1) bs (decode_piece m c n bs)
        (data-GivesBlock m c (word bs) (word (drop 4 bs)) (n - 9) (drop 8 bs)))
]

tag-GivesBlock : (m : Metainfo) (c tag n : ℕ) (bs : List ℕ) → GivesBlock (decode_tag m c tag n bs)
unfolding decode_tag decode_bitfield decode_three
tag-GivesBlock m c tag n bs =
    let bits = ceil_div8 (m.pieces_count - 1) in
    ground (
      arith,
      exactly-GivesBlock n 4 bs (decode_have m bs) (have-GivesBlock m bs),
      exactly-GivesBlock n bits bs (decode_bitfield bits bs) tt,
      exactly-GivesBlock n 12 bs (decode_three request bs) tt,
      exactly-GivesBlock n 12 bs (decode_three cancel bs) tt,
      sized_piece-GivesBlock m c n bs,
    )

pub decode-GivesBlock : (m : Metainfo) (c : ℕ) (bs : List ℕ) → GivesBlock (decode m c bs)
unfolding decode
decode-GivesBlock m c bs = elim (Bool-cases (ltb (length bs) 4)) [
  | inl a ↦ rw a tt
  | inr a ↦ elim (Bool-cases (word bs == 0)) [
    | inl b ↦ rw (a, b) tt
    | inr b ↦ elim (Bool-cases (ltb max_message_length (word bs))) [
      | inl d ↦ rw (a, b, d) tt
      | inr d ↦
          rw (a, b, d)
            (when_there-GivesBlock 5 bs (decode_tag m c (get_or bs 4 0) (word bs) (drop 5 bs))
              (tag-GivesBlock m c (get_or bs 4 0) (word bs) (drop 5 bs)))
    ]
  ]
]
