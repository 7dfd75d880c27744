-- ===== src/Torrent/Peer/Decode/Lengths.antt =====
-- The length that a piece message must have, against what `metainfo_block_for_piece_length` computes.
use c_fs_subscriber.Base.{ℕ, ◌+◌, ◌-◌, ◌*◌, ◌/◌, ◌<◌, min, ◌≡◌, sym, ap, ◌∙◌, inl, inr, some, arith}
use c_fs_subscriber.Torrent.Metainfo.{
  Metainfo, block_length, block_for_piece_length, piece_length_of, block_count_for_piece,
}
use c_fs_subscriber.Torrent.Metainfo.Blocks.{block_count_lem, block_for_piece_length_lem}
use c_fs_subscriber.Torrent.Metainfo.Sound.{IsSound}
use c_fs_subscriber.Torrent.Peer.Decode.{length_at}

module _ {m : Metainfo} (s : IsSound m) (index begin : ℕ) (p : index < m.pieces_count)
    (q : begin < piece_length_of m index) where
  -- A byte of a piece lies in one of the blocks of the piece.
  pub block-lt-block_count : begin / block_length < block_count_for_piece m index
  block-lt-block_count = elim (block_count_lem s index p) [
    | inl (e, _, c, l) ↦ omega (arith, s.last_blocks)
    | inr (e, _, c, l) ↦ omega (arith, s.whole_blocks)
  ]

  pub begin-lt-piece_length : begin < m.piece_length
  begin-lt-piece_length = elim (block_count_lem s index p) [
    | inl (e, _, c, l) ↦ omega (arith, s.last_length, s.all_covered)
    | inr (e, _, c, l) ↦ omega arith
  ]

  offset :
      index * m.piece_length + begin / block_length * block_length
      ≡ block_length * (index * m.blocks_per_piece + begin / block_length)
  offset = grind (arith, ap (λ (t : ℕ). index * t) s.whole_blocks)

  pub length_at_lem :
      block_for_piece_length m index (begin / block_length) ≡ some (length_at m index begin)
  unfolding length_at
  length_at_lem =
      block_for_piece_length_lem s index (begin / block_length) p block-lt-block_count
      ∙ ap (λ t. some (min block_length (m.length - t))) (sym offset)
