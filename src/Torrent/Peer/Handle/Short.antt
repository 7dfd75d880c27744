-- ===== src/Torrent/Peer/Handle/Short.antt =====
-- The last block of a file whose length is not a multiple of the block length.

use c_fs_subscriber.Base.{
  leb, add64, mul64, ℕ, ◌+◌, ◌-◌, ◌*◌, ◌/◌, ◌%◌, ◌^◌, ◌<◌, min, ◌≡◌, refl, ◌≢◌, false, none, List,
  arith,
}
use c_fs_subscriber.Torrent.Metainfo.{block_length}
use c_fs_subscriber.Torrent.Metainfo.Sound.{IsSound}
use c_fs_subscriber.Torrent.Peer.{Peer, World}
use c_fs_subscriber.Torrent.Peer.Handle.{handle_piece, store_piece, chunk_bytes}
use c_fs_subscriber.Torrent.Peer.Handle.Place.{store_piece_places}
use c_fs_subscriber.Torrent.Peer.Store.{put_block}

module _ (w : World) where
  open w use {S}

  put_block_short :
      (p : Peer S) (index block : ℕ) (bytes : List ℕ)
      → block < 2 ^ 32
      → p.metainfo.length < 16384 * (block + 1)
      → put_block w p index block bytes ≡ none
  unfolding put_block
  put_block_short p index block bytes small short =
      let fails : leb (add64 (mul64 block block_length) block_length) p.metainfo.length ≡ false =
        ground arith in
      rw fails (ground arith)

  store_piece_short :
      (p : Peer S) (block : ℕ) (bytes : List ℕ)
      → IsSound p.metainfo
      → block < p.metainfo.blocks_count
      → p.metainfo.length < 16384 * (block + 1)
      → store_piece w p
          (block / p.metainfo.blocks_per_piece)
          (16384 * (block % p.metainfo.blocks_per_piece))
          bytes
        ≡ none
  store_piece_short p block bytes s q short =
      let m = p.metainfo in
      let n = min block_length (m.length - block_length * block) in
      rw
        (
          store_piece_places w p block bytes s q,
          put_block_short p (block / m.blocks_per_piece) block (chunk_bytes n bytes)
              (omega (arith, s.blocks_small)) short,
        )
        refl

  -- In a sound torrent whose length is not a multiple of the block length, the answer of a peer to the
  -- request for the last block of the file ends the program at a failed `assert`, if a block was asked
  -- for, whatever the answer holds and whatever the system would do.
  pub last_block_stops :
      (p : Peer S) (block : ℕ) (bytes : List ℕ)
      → IsSound p.metainfo
      → block + 1 ≡ p.metainfo.blocks_count
      → p.metainfo.length % 16384 ≢ 0
      → 0 < p.in_flight_requests
      → handle_piece w p
          (block / p.metainfo.blocks_per_piece)
          (16384 * (block % p.metainfo.blocks_per_piece))
          bytes
        ≡ none
  unfolding handle_piece
  last_block_stops p block bytes s last uneven flying =
      ground (arith, store_piece_short p block bytes s (omega arith) (omega (arith, s.all_blocks)))
