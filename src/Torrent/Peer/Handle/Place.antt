-- ===== src/Torrent/Peer/Handle/Place.antt =====
-- Where the bytes of a piece message go: the block that was asked for, over the integers.
use native.Mathlib.Nat.{div-add-mod'}
use c_fs_subscriber.Base.{
  lt→ltb, ◌>>=◌, ℕ, ◌-◌, ◌*◌, ◌/◌, ◌%◌, ◌<◌, min, ◌≡◌, refl, some, List, arith,
}
use c_fs_subscriber.Torrent.Metainfo.{block_length}
use c_fs_subscriber.Torrent.Metainfo.Blocks.{
  block_place, block_for_piece_to_block_lem, block_for_piece_length_lem,
}
use c_fs_subscriber.Torrent.Metainfo.Sound.{IsSound}
use c_fs_subscriber.Torrent.Peer.{Peer, World, no_error, request_more}
use c_fs_subscriber.Torrent.Peer.Handle.{store_piece, chunk_bytes}
use c_fs_subscriber.Torrent.Peer.Store.{put_block}

module _ (w : World) where
  open w use {S}

  -- The answer to the request for a block is stored as that block, with the bytes that it has room for.
  pub store_piece_places :
      (p : Peer S) (block : ℕ) (bytes : List ℕ)
      → IsSound p.metainfo
      → block < p.metainfo.blocks_count
      → store_piece w p
          (block / p.metainfo.blocks_per_piece)
          (16384 * (block % p.metainfo.blocks_per_piece))
          bytes
        ≡ (put_block w p
              (block / p.metainfo.blocks_per_piece)
              block
              (chunk_bytes (min block_length (p.metainfo.length - block_length * block)) bytes)
            >>= λ x. some (no_error, request_more, x.1))
  unfolding store_piece
  store_piece_places p block bytes s q =
      let m = p.metainfo in
      let b = m.blocks_per_piece in
      let (inside, below) = block_place s block q in
      let k : 16384 * (block % b) / block_length ≡ block % b = omega arith in
      rw
        (
          k,
          lt→ltb _ _ below,
          block_for_piece_to_block_lem s (block / b) (block % b) inside below,
          div-add-mod' block b,
          lt→ltb _ _ q,
          block_for_piece_length_lem s (block / b) (block % b) inside below,
          div-add-mod' block b,
        )
        refl
