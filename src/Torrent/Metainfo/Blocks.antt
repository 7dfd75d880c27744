-- ===== src/Torrent/Metainfo/Blocks.antt =====
-- The blocks of the file against the blocks of a piece, for a sound `Metainfo`.
use native.Mathlib.Nat.{div-add-mod', mod-lt, div-lt_iff_lt-mul}
use c_fs_subscriber.Base.{
  ◌>>=◌, sub32, mul32, ℕ, ◌+◌, ◌-◌, ◌*◌, ◌/◌, ◌%◌, ◌≤◌, ◌<◌, min, ◌≡◌, refl, sym, ap, ◌∙◌, ◌⊎◌, inl,
  inr, true, false, some, arith,
}
use c_fs_subscriber.Torrent.Metainfo.{
  block_for_piece_length, Metainfo, block_length, is_last_piece, block_count_for_piece,
  piece_length_of, block_to_block_for_piece, block_for_piece_to_block,
}
use c_fs_subscriber.Torrent.Metainfo.Sound.{IsSound}

scale : (p b : ℕ) → p * (16384 * b) ≡ 16384 * (p * b)
scale p b = omega arith

add_one_mul : (p b : ℕ) → (p + 1) * b ≡ p * b + b
add_one_mul p b = omega arith

module _ {m : Metainfo} (s : IsSound m) where
  -- The last piece has at least one block, and no more than the others.
  pub last_blocks_bounds :
      (0 < m.last_piece_block_count) × (m.last_piece_block_count ≤ m.blocks_per_piece)
  last_blocks_bounds = (omega arith, omega arith)

  -- The offset of a piece, in blocks.
  offset : (p : ℕ) → p * m.piece_length ≡ 16384 * (p * m.blocks_per_piece)
  offset p = ap (λ (t : ℕ). p * t) s.whole_blocks ∙ scale p m.blocks_per_piece

  -- The blocks of the file are those of all pieces but the last, and those of the last.
  pub blocks_sum :
      m.blocks_count ≡ (m.pieces_count - 1) * m.blocks_per_piece + m.last_piece_block_count
  blocks_sum = omega (arith, offset (m.pieces_count - 1))

  whole_pieces :
      (m.pieces_count - 1) * m.blocks_per_piece + m.blocks_per_piece
      ≡ m.pieces_count * m.blocks_per_piece
  whole_pieces =
      let e : m.pieces_count ≡ m.pieces_count - 1 + 1 = omega arith in
      sym (
        ap (λ (t : ℕ). t * m.blocks_per_piece) e
        ∙ add_one_mul (m.pieces_count - 1) m.blocks_per_piece)

  -- A piece that is not the last one lies before the last one.
  whole_piece :
      (piece : ℕ)
      → piece < m.pieces_count - 1
      → piece * m.blocks_per_piece + m.blocks_per_piece ≤ (m.pieces_count - 1) * m.blocks_per_piece
  whole_piece piece p = grind arith

  -- The number of blocks of a piece, by the position of the piece.
  pub block_count_lem :
      (piece : ℕ)
      → piece < m.pieces_count
      → ((piece ≡ m.pieces_count - 1)
          × (is_last_piece m piece ≡ true)
          × (block_count_for_piece m piece ≡ m.last_piece_block_count)
          × (piece_length_of m piece ≡ m.last_piece_length))
        ⊎ ((piece < m.pieces_count - 1)
            × (is_last_piece m piece ≡ false)
            × (block_count_for_piece m piece ≡ m.blocks_per_piece)
            × (piece_length_of m piece ≡ m.piece_length))
  unfolding block_count_for_piece piece_length_of
  block_count_lem piece p = ground arith

  -- The blocks of a piece lie in the file.
  pub block_in_file :
      (piece k : ℕ)
      → piece < m.pieces_count
      → k < block_count_for_piece m piece
      → piece * m.blocks_per_piece + k < m.blocks_count
  block_in_file piece k p q = elim (block_count_lem piece p) [
    | inl (e, _, c, _) ↦
        let z : piece * m.blocks_per_piece ≡ (m.pieces_count - 1) * m.blocks_per_piece =
          ap (λ (t : ℕ). t * m.blocks_per_piece) e in
        omega (arith, blocks_sum)
    | inr (e, _, c, _) ↦ omega (arith, blocks_sum, whole_piece piece e)
  ]

  -- A block of a piece is a block of the file, at the position over the integers: no product wraps,
  -- and no `assert` fails.
  pub block_for_piece_to_block_lem :
      (piece k : ℕ)
      → piece < m.pieces_count
      → k < block_count_for_piece m piece
      → block_for_piece_to_block m piece k ≡ some (piece * m.blocks_per_piece + k)
  unfolding block_for_piece_to_block
  block_for_piece_to_block_lem piece k p q = ground (arith, block_in_file piece k p q)

  -- A block of the file is the block `block % blocks_per_piece` of the piece
  -- `block / blocks_per_piece`, which is a piece of the torrent.
  pub block_place :
      (block : ℕ)
      → block < m.blocks_count
      → (block / m.blocks_per_piece < m.pieces_count)
        × (block % m.blocks_per_piece < block_count_for_piece m (block / m.blocks_per_piece))
  block_place block p =
      let b = m.blocks_per_piece in
      let split : block / b * b + block % b ≡ block = div-add-mod' block b in
      let small : block % b < b = mod-lt block s.blocks_pos in
      let one_more : (m.pieces_count - 1) * b + b ≡ m.pieces_count * b = whole_pieces in
      let inside : block / b < m.pieces_count =
        (div-lt_iff_lt-mul s.blocks_pos).1 (omega (arith, blocks_sum, last_blocks_bounds)) in
      (
        inside,
        elim (block_count_lem (block / b) inside) [
          | inl (e, _, c, _) ↦
              let z : block / b * b ≡ (m.pieces_count - 1) * b = ap (λ (t : ℕ). t * b) e in
              omega (arith, blocks_sum)
          | inr (e, _, c, _) ↦ omega arith
        ],
      )

  -- The offset of a block in its piece, in bytes, as `peer_send_request` computes it.
  pub begin_offset :
      (block : ℕ)
      → sub32 (mul32 block block_length) (mul32 (block / m.blocks_per_piece) m.piece_length)
        ≡ 16384 * (block % m.blocks_per_piece)
  begin_offset block =
      let b = m.blocks_per_piece in
      omega (arith, offset (block / b), div-add-mod' block b, mod-lt block s.blocks_pos)

  -- The offset of a block in its piece survives the wrap-around of both 32-bit products.
  pub block_to_block_for_piece_lem :
      (block : ℕ)
      → block < m.blocks_count
      → block_to_block_for_piece m (block / m.blocks_per_piece) block
        ≡ some (block % m.blocks_per_piece)
  unfolding block_to_block_for_piece
  block_to_block_for_piece_lem block p =
      let b = m.blocks_per_piece in
      ground (
        arith,
        block_place block p,
        block_count_lem (block / b) (block_place block p).0,
        begin_offset block,
      )

  -- In a sound torrent, a block of the file goes to a block of its piece, and that one back to the
  -- same block of the file: no `assert` fails on the way.
  pub block_round_trip :
      (block : ℕ)
      → block < m.blocks_count
      → (block_to_block_for_piece m (block / m.blocks_per_piece) block
          >>= block_for_piece_to_block m (block / m.blocks_per_piece))
        ≡ some block
  block_round_trip block p =
      let b = m.blocks_per_piece in
      let (inside, below) = block_place block p in
      rw
        (
          block_to_block_for_piece_lem block p,
          block_for_piece_to_block_lem (block / b) (block % b) inside below,
          div-add-mod' block b,
        )
        refl

  -- In a sound torrent, a block of a piece holds a full `block_length`, or what is left of the file from its offset on: the length
  -- that the 32-bit arithmetic computes is the one over the integers, for a file of any size.
  pub block_for_piece_length_lem :
      (piece k : ℕ)
      → piece < m.pieces_count
      → k < block_count_for_piece m piece
      → block_for_piece_length m piece k
        ≡ some (min block_length (m.length - block_length * (piece * m.blocks_per_piece + k)))
  unfolding block_for_piece_length
  block_for_piece_length_lem piece k p q = elim (block_count_lem piece p) [
    | inl (e, l, c, _) ↦
        let z : piece * m.blocks_per_piece ≡ (m.pieces_count - 1) * m.blocks_per_piece =
          ap (λ (t : ℕ). t * m.blocks_per_piece) e in
        ground (arith, offset piece, offset (m.pieces_count - 1), last_blocks_bounds)
    | inr (e, l, c, _) ↦ ground (arith, offset (m.pieces_count - 1), whole_piece piece e)
  ]
