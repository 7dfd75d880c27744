-- ===== src/Torrent/Peer/Decode.antt =====
-- What the message at the head of a plain list of bytes says, without the ring. The numbers are over the
-- integers. It follows the code where that departs from the protocol: a bitfield has the bytes of one piece
-- less, and a `have` of the number of pieces passes.
pub mod Lengths
pub mod Refines
pub mod Whole
pub mod Blocks
pub mod Trip
pub mod Stream
pub mod Parts
use c_fs_subscriber.Base.{
  ltb, leb, ◌==◌, if◌then◌else◌, length, get_or, take, drop, ℕ, ◌+◌, ◌-◌, ◌*◌, ◌/◌, min, ◌||◌, List,
}
use c_fs_subscriber.Torrent.Metainfo.{Metainfo, block_length, piece_length_of}
use c_fs_subscriber.Pg.Bitarray.{ceil_div8}
use c_fs_subscriber.Torrent.Peer.{
  ErrorKind, invalid_announced_length, invalid_message_tag, invalid_have, invalid_piece, Message,
  heartbeat, choke, unchoke, interested, uninterested, bitfield, have, request, piece, cancel,
  max_message_length,
}
use c_fs_subscriber.Torrent.Peer.Parse.{bitreverse_all}
use c_fs_subscriber.Torrent.Peer.Fields.{word}

-- The message is not all there yet, or it is wrong, or it is there, with the bytes behind it.
pub data Decoded : Type 0 where
  waits : Decoded
  refuses : ErrorKind → Decoded
  gives : Message → List ℕ → Decoded

-- The length of the block of `piece` at `begin`, over the integers: a full one, or what is left of the
-- file.
unfoldable pub length_at : Metainfo → ℕ → ℕ → ℕ
length_at m index begin =
    min block_length (m.length - (index * m.piece_length + begin / block_length * block_length))

-- The payload of `size` bytes, once it is there.
abbrev pub when_there : ℕ → List ℕ → Decoded → Decoded
when_there size bs d = if ltb (length bs) size then waits else d

-- A payload whose size the message must have announced.
abbrev pub exactly : ℕ → ℕ → List ℕ → Decoded → Decoded
exactly n size bs d =
    if n == size + 1 then when_there size bs d else refuses invalid_announced_length

unfoldable pub decode_have : Metainfo → List ℕ → Decoded
decode_have m bs =
    if ltb m.pieces_count (word bs)
    then refuses invalid_have
    else gives (have (word bs)) (drop 4 bs)

unfoldable pub decode_bitfield : ℕ → List ℕ → Decoded
decode_bitfield size bs = gives (bitfield (bitreverse_all (take size bs))) (drop size bs)

unfoldable pub decode_three : (ℕ → ℕ → ℕ → Message) → List ℕ → Decoded
decode_three msg bs = gives (msg (word bs) (word (drop 4 bs)) (word (drop 8 bs))) (drop 12 bs)

unfoldable pub decode_data : Metainfo → ℕ → ℕ → ℕ → ℕ → List ℕ → Decoded
unfolding length_at
decode_data m c index begin size bs =
    if leb m.pieces_count index || ltb (piece_length_of m index) (begin + size)
    then refuses invalid_piece
    else if size == length_at m index begin
    then gives (piece index begin c (take size bs)) (drop size bs)
    else refuses invalid_piece

unfoldable pub decode_piece : Metainfo → ℕ → ℕ → List ℕ → Decoded
unfolding decode_data
decode_piece m c n bs = decode_data m c (word bs) (word (drop 4 bs)) (n - 9) (drop 8 bs)

-- A message with a tag, its payload, and what follows; `c` is the chunk that takes the data of a piece.
unfoldable pub decode_tag : Metainfo → ℕ → ℕ → ℕ → List ℕ → Decoded
unfolding decode_piece decode_have decode_bitfield decode_three
decode_tag m c tag n bs =
    let bits = ceil_div8 (m.pieces_count - 1) in
    if tag == 0
    then gives choke bs
    else if tag == 1
    then gives unchoke bs
    else if tag == 2
    then gives interested bs
    else if tag == 3
    then gives uninterested bs
    else if tag == 4
    then exactly n 4 bs (decode_have m bs)
    else if tag == 5
    then exactly n bits bs (decode_bitfield bits bs)
    else if tag == 6
    then exactly n 12 bs (decode_three request bs)
    else if tag == 7
    then (if ltb n 10
        then refuses invalid_announced_length
        else when_there (n - 1) bs (decode_piece m c n bs))
    else if tag == 8
    then exactly n 12 bs (decode_three cancel bs)
    else refuses invalid_message_tag

unfoldable pub decode : Metainfo → ℕ → List ℕ → Decoded
decode m c bs =
    if ltb (length bs) 4
    then waits
    else if word bs == 0
    then gives heartbeat (drop 4 bs)
    else if ltb max_message_length (word bs)
    then refuses invalid_announced_length
    else when_there 5 bs (decode_tag m c (get_or bs 4 0) (word bs) (drop 5 bs))
