-- ===== src/Torrent/Peer/Decode/Trip.antt =====
-- What the client sends, read by `decode`: requests, and the answers to them.

use c_fs_subscriber.Torrent.Metainfo.Sound.{IsSound}
use c_fs_subscriber.Torrent.Metainfo.Blocks.{
  block_place, begin_offset, block_to_block_for_piece_lem, block_for_piece_length_lem,
  block_count_lem,
}
use native.Mathlib.Nat.{div-add-mod', mod-lt}
use c_fs_subscriber.Base.{
  length, length-append, take_length-append, drop_length-append, ℕ, ◌+◌, ◌-◌, ◌*◌, ◌/◌, ◌%◌, ◌^◌,
  ◌≤◌, ◌<◌, min, ◌≡◌, refl, ap, ◌∙◌, inl, inr, some, List, [], ◌++◌, arith,
}
use c_fs_subscriber.Torrent.Metainfo.{Metainfo, block_length, piece_length_of}
use c_fs_subscriber.Torrent.Peer.{request, piece}
use c_fs_subscriber.Torrent.Peer.Decode.{
  gives, decode, decode_data, length_at, decode_piece, decode_tag,
}
use c_fs_subscriber.Torrent.Peer.Send.{request_bytes, request_of}
use c_fs_subscriber.Torrent.Peer.Wire.{ntohl, write_u32, write_u8}

ntohl-htonl :
    (x : ℕ)
    → x < 2 ^ 32
    → ntohl (x / 16777216 % 256) (x / 65536 % 256) (x / 256 % 256) (x % 256) ≡ x
ntohl-htonl x h = omega arith

-- A request is read back as it was written, whatever follows it.
pub decode-request_bytes :
    (m : Metainfo) (c index begin len : ℕ) (rest : List ℕ)
    → index < 2 ^ 32
    → begin < 2 ^ 32
    → len < 2 ^ 32
    → decode m c (request_bytes index begin len ++ rest) ≡ gives (request index begin len) rest
unfolding decode decode_tag request_bytes
decode-request_bytes m c index begin len rest i b l =
    ground (arith, ntohl-htonl index i, ntohl-htonl begin b, ntohl-htonl len l)

-- A message with a piece, as the protocol has it.
unfoldable pub piece_bytes : ℕ → ℕ → List ℕ → List ℕ
unfolding write_u32 write_u8
piece_bytes index begin bytes =
    write_u32 (write_u32 (write_u8 (write_u32 [] (9 + length bytes)) 7) index) begin ++ bytes

module _ {m : Metainfo} (s : IsSound m) (block : ℕ) (p : block < m.blocks_count) where
  -- For a block of a sound torrent, a request asks for the piece of the block, the offset of the block
  -- in it over the integers, and a full block or what is left of the file.
  pub request_of_lem :
      request_of m block
      ≡ some (
        block / m.blocks_per_piece,
        16384 * (block % m.blocks_per_piece),
        min block_length (m.length - block_length * block),
      )
  unfolding request_of
  request_of_lem =
      let b = m.blocks_per_piece in
      let (inside, below) = block_place s block p in
      rw
        (
          block_to_block_for_piece_lem s block p,
          block_for_piece_length_lem s (block / b) (block % b) inside below,
          div-add-mod' block b,
          begin_offset s block,
        )
        refl

-- A message with a piece that fits the torrent is read back as it was written, whatever follows it.
decode_data-fits :
    (m : Metainfo) (c index begin : ℕ) (bytes rest : List ℕ)
    → index < m.pieces_count
    → begin + length bytes ≤ piece_length_of m index
    → length bytes ≡ length_at m index begin
    → decode_data m c index begin (length bytes) (bytes ++ rest)
      ≡ gives (piece index begin c bytes) rest
unfolding decode_data
decode_data-fits m c index begin bytes rest i b l =
    rw (take_length-append bytes rest, drop_length-append bytes rest) (ground arith)

decode-piece_bytes :
    (m : Metainfo) (c index begin : ℕ) (bytes rest : List ℕ)
    → index < 2 ^ 32
    → begin < 2 ^ 32
    → 0 < length bytes
    → 9 + length bytes ≤ 134217728
    → decode m c (piece_bytes index begin bytes ++ rest)
      ≡ decode_data m c index begin (length bytes) (bytes ++ rest)
unfolding decode decode_tag decode_piece piece_bytes
decode-piece_bytes m c index begin bytes rest i b low high = ground (
  arith,
  ntohl-htonl (9 + length bytes) (omega arith),
  ntohl-htonl index i,
  ntohl-htonl begin b,
  length-append bytes rest,
)

-- The answer to any request of the client is decoded: a message with the piece and
-- the offset of the request for a block, and as many bytes as it asks for, is read back as that
-- piece, and what follows it is left.
pub decode-answer :
    {m : Metainfo} (c block : ℕ) (bytes rest : List ℕ)
    → IsSound m
    → block < m.blocks_count
    → length bytes ≡ min block_length (m.length - block_length * block)
    → decode m c (
        piece_bytes (block / m.blocks_per_piece) (16384 * (block % m.blocks_per_piece)) bytes
        ++ rest)
      ≡ gives
          (piece (block / m.blocks_per_piece) (16384 * (block % m.blocks_per_piece)) c bytes)
          rest
decode-answer {m} c block bytes rest s p l =
    let b = m.blocks_per_piece in
    let index = block / b in
    let begin = 16384 * (block % b) in
    let (inside, below) = block_place s block p in
    let split : index * b + block % b ≡ block = div-add-mod' block b in
    let offset : index * m.piece_length ≡ 16384 * (index * b) =
      ap (λ (t : ℕ). index * t) s.whole_blocks ∙ omega arith in
    let here : length bytes ≡ length_at m index begin = unfold length_at in omega arith in
    let small : 0 < length bytes = omega arith in
    let fits : begin + length bytes ≤ piece_length_of m index =
      elim (block_count_lem s index inside) [
        | inl (e, _, k, t) ↦
            let z : index * m.piece_length ≡ (m.pieces_count - 1) * m.piece_length =
              ap (λ (t : ℕ). t * m.piece_length) e in
            omega arith
        | inr (e, _, k, t) ↦ omega arith
      ] in
    decode-piece_bytes m c index begin bytes rest (omega (arith, s.pieces_small))
      (omega (arith, mod-lt block s.blocks_pos)) small (omega arith)
    ∙ decode_data-fits m c index begin bytes rest inside fits here
