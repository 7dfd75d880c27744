-- ===== src/Torrent/Peer/Handle/Lost.antt =====
-- A block that arrives and cannot be written to the file.

use c_fs_subscriber.Base.{
  leb, lt→ltb, ◌>>=◌, add64, mul64, ℕ, ◌+◌, ◌-◌, ◌*◌, ◌/◌, ◌%◌, ◌^◌, ◌≤◌, ◌<◌, min, ◌≡◌, refl, ap,
  ◌∙◌, ◌⊎◌, inl, inr, true, false, none, some, List, arith,
}
use c_fs_subscriber.Torrent.Metainfo.{block_length}
use c_fs_subscriber.Torrent.Metainfo.Blocks.{block_place}
use c_fs_subscriber.Torrent.Metainfo.Sound.{IsSound}
use c_fs_subscriber.Torrent.Peer.{Peer, World, no_error, os, request_more}
use c_fs_subscriber.Torrent.Peer.Handle.{handle_piece, store_piece, chunk_bytes}
use c_fs_subscriber.Torrent.Peer.Handle.Place.{store_piece_places}
use c_fs_subscriber.Torrent.Peer.Store.{put_block}

module _ (w : World) where
  open w use {S, seek, write}

  -- `lseek` or `write` fails for `bytes` at `offset`.
  abbrev pub Fails : S → ℕ → List ℕ → Type 0
  Fails s offset bytes =
      ((seek s offset).0 ≡ false)
      ⊎ (((seek s offset).0 ≡ true) × ((write (seek s offset).1 bytes).0 ≡ none))

  put_block-Fails :
      (p : Peer S) (index block : ℕ) (bytes : List ℕ)
      → index < p.metainfo.pieces_count
      → block < p.metainfo.blocks_count
      → block < 2 ^ 32
      → 16384 * (block + 1) ≤ p.metainfo.length
      → Fails p.world (block_length * block) bytes
      → (s : S) × (put_block w p index block bytes ≡ some (os, record p { world = s }))
  unfolding put_block
  put_block-Fails p index block bytes i q small whole fails =
      let offset : mul64 block block_length ≡ block_length * block = omega arith in
      let fits : leb (add64 (mul64 block block_length) block_length) p.metainfo.length ≡ true =
        ground arith in
      let at = mul64 block block_length in
      let fails' : Fails p.world at bytes = rw offset fails in
      elim fails' [
        | inl e ↦ ((seek p.world at).1, rw (lt→ltb _ _ i, lt→ltb _ _ q, fits, e) refl)
        | inr (e, f) ↦
            ((write (seek p.world at).1 bytes).1, rw (lt→ltb _ _ i, lt→ltb _ _ q, fits, e, f) refl)
      ]

  store_piece-Fails :
      (p : Peer S) (block : ℕ) (bytes : List ℕ)
      → IsSound p.metainfo
      → block < p.metainfo.blocks_count
      → 16384 * (block + 1) ≤ p.metainfo.length
      → Fails p.world (block_length * block) (chunk_bytes block_length bytes)
      → (s : S) × (store_piece w p
            (block / p.metainfo.blocks_per_piece)
            (16384 * (block % p.metainfo.blocks_per_piece))
            bytes
          ≡ some (no_error, request_more, record p { world = s }))
  store_piece-Fails p block bytes s q whole fails =
      let m = p.metainfo in
      let n : min block_length (m.length - block_length * block) ≡ block_length = omega arith in
      let (inside, _) = block_place s block q in
      let (s', e) =
        put_block-Fails p (block / m.blocks_per_piece) block (chunk_bytes block_length bytes) inside
          q (omega (arith, s.blocks_small)) whole fails in
      (
        s',
        store_piece_places w p block bytes s q
            ∙ ap
                (λ (len : ℕ).
                  put_block w p (block / m.blocks_per_piece) block (chunk_bytes len bytes) >>= λ x.
                  some (no_error, request_more, x.1))
                n
            ∙ ap (λ o. o >>= λ x. some (no_error, request_more, x.1)) e,
      )

  -- In a sound torrent, where the answer of a peer to the request for a block of the full length cannot
  -- be written to the file, if a block was asked for: no error is given, and the peer is as it was but
  -- for what the system keeps. The request stays counted, and the block stays as the picker has it.
  pub unwritten_block_lost :
      (p : Peer S) (block : ℕ) (bytes : List ℕ)
      → IsSound p.metainfo
      → block < p.metainfo.blocks_count
      → 16384 * (block + 1) ≤ p.metainfo.length
      → 0 < p.in_flight_requests
      → Fails p.world (block_length * block) (chunk_bytes block_length bytes)
      → (s : S) × (handle_piece w p
            (block / p.metainfo.blocks_per_piece)
            (16384 * (block % p.metainfo.blocks_per_piece))
            bytes
          ≡ some (no_error, request_more, record p { world = s }))
  unfolding handle_piece
  unwritten_block_lost p block bytes s q whole flying fails =
      let (s', e) = store_piece-Fails p block bytes s q whole fails in (s', ground (arith, e))
