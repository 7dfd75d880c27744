-- ===== src/Torrent/Peer/Handle/Arrive.antt =====
-- A block that arrives and is written to the file.

use c_fs_subscriber.Base.{
  leb, ◌==◌, if◌then◌else◌, lt→ltb, le→leb, length, take_length-append, ◌>>=◌, add64, mul64, add32,
  ℕ, ◌+◌, ◌-◌, ◌*◌, ◌/◌, ◌%◌, ◌^◌, ◌≤◌, ◌<◌, min, ◌≡◌, refl, sym, ap, ◌∙◌, subst, ◌≢◌, true, false,
  Option, some, List, arith,
}
use c_fs_subscriber.Torrent.Metainfo.{Metainfo, block_length, block_count_for_piece}
use c_fs_subscriber.Torrent.Metainfo.Blocks.{block_place}
use c_fs_subscriber.Torrent.Metainfo.Sound.{IsSound}
use c_fs_subscriber.Torrent.Picker.{Picker, have_all_blocks_for_piece, mark_block_as_downloaded}
use c_fs_subscriber.Torrent.Picker.Valid.{
  IsValid, Becomes, status, requested, done, mark_block_as_downloaded_lem,
}
use c_fs_subscriber.Torrent.Peer.{ErrorKind, Action, Peer, World, Download, no_error, request_more}
use c_fs_subscriber.Torrent.Peer.Handle.{handle_piece, store_piece, chunk_bytes}
use c_fs_subscriber.Torrent.Peer.Handle.Place.{store_piece_places}
use c_fs_subscriber.Torrent.Peer.Store.{put_block, count_block, finish_piece}
use c_fs_subscriber.Torrent.Picker.Missing.{Misses, still-Misses}

-- The block is one of the full length that was asked for, and the counters have room for it.
pub record Expects {S : Type 0} (p : Peer S) (block : ℕ) : Type 0 where
  pub valid : IsValid p.picker
  pub same : p.picker.metainfo ≡ p.metainfo
  pub inside : block < p.metainfo.blocks_count
  pub whole : 16384 * (block + 1) ≤ p.metainfo.length
  pub big : p.metainfo.length < 2 ^ 64
  pub flying : 0 < p.in_flight_requests
  pub asked : status p.picker block ≡ requested
  pub bytes_left : p.download.downloaded_bytes + 16384 ≤ p.metainfo.length
  pub blocks_left : p.download.downloaded_blocks_count + 1 ≤ p.metainfo.blocks_count

-- the counters with one more block, of `n` bytes
abbrev pub counted : Download → ℕ → Download
counted d n = record d {
  downloaded_bytes = d.downloaded_bytes + n;
  downloaded_blocks_count = d.downloaded_blocks_count + 1;
}

module _ (w : World) where
  open w use {S, seek, write}

  count_block_lem :
      (d : Download) (m : Metainfo) (n : ℕ)
      → m.length < 2 ^ 64
      → m.blocks_count < 2 ^ 32
      → d.downloaded_bytes + n ≤ m.length
      → d.downloaded_blocks_count + 1 ≤ m.blocks_count
      → count_block w d m n ≡ some (counted d n)
  unfolding count_block
  count_block_lem d m n big small b c =
      let eb : add64 d.downloaded_bytes n ≡ d.downloaded_bytes + n = omega arith in
      let ec : add32 d.downloaded_blocks_count 1 ≡ d.downloaded_blocks_count + 1 = omega arith in
      rw (eb, ec, le→leb _ _ b, le→leb _ _ c) refl

  finish_piece_lem :
      (p : Peer S) (piece : ℕ)
      → have_all_blocks_for_piece p.picker piece ≡ some false
      → finish_piece w p piece ≡ some (no_error, p)
  unfolding finish_piece
  finish_piece_lem p piece e = rw e refl

  -- The bytes are written at the offset, all of them.
  abbrev pub Writes : S → ℕ → List ℕ → Type 0
  Writes s offset bytes =
      ((seek s offset).0 ≡ true)
      × ((write (seek s offset).1 bytes).0 ≡ some (length bytes))
      × (length bytes ≢ 0)

  put_block_lem :
      (p : Peer S) (q : Picker) (d : Download) (index block : ℕ) (bytes : List ℕ)
      → index < p.metainfo.pieces_count
      → block < p.metainfo.blocks_count
      → block < 2 ^ 32
      → 16384 * (block + 1) ≤ p.metainfo.length
      → 0 < p.in_flight_requests
      → Writes p.world (block_length * block) bytes
      → mark_block_as_downloaded p.picker block ≡ some q
      → have_all_blocks_for_piece q index ≡ some false
      → count_block w p.download p.metainfo (length bytes) ≡ some d
      → (s : S) × (put_block w p index block bytes
          ≡ some (
            no_error,
            record p {
              world = s;
              picker = q;
              in_flight_requests = p.in_flight_requests - 1;
              download = d;
            },
          ))
  unfolding put_block
  put_block_lem p q d index block bytes i b small whole flying writes marked some_left counts =
      let offset : mul64 block block_length ≡ block_length * block = omega arith in
      let fits : leb (add64 (mul64 block block_length) block_length) p.metainfo.length ≡ true =
        ground arith in
      let at = mul64 block block_length in
      let (found, written, some_bytes) : Writes p.world at bytes = rw offset writes in
      let s = (write (seek p.world at).1 bytes).1 in
      let left = record p {
        world = s;
        picker = q;
        in_flight_requests = p.in_flight_requests - 1;
        download = d;
      } in
      let same : (length bytes == length bytes) ≡ true = ground arith in
      let nonzero : (length bytes == 0) ≡ false = ground arith in
      (
        s,
        rw
            (
              lt→ltb _ _ i,
              lt→ltb _ _ b,
              fits,
              found,
              written,
              nonzero,
              same,
              marked,
              lt→ltb _ _ flying,
              counts,
            )
            (finish_piece_lem left index some_left),
      )

  handle_flying :
      (p : Peer S) (index begin : ℕ) (bytes : List ℕ)
      → 0 < p.in_flight_requests
      → handle_piece w p index begin bytes ≡ store_piece w p index begin bytes
  unfolding handle_piece
  handle_flying p index begin bytes flying = ground arith

  -- In a sound torrent of less than 2^64 bytes with a valid picker, where a request is in flight and a
  -- peer answers the one for a block of the full length with 16384 bytes, the block has the status of a
  -- requested one, `lseek` works and `write` takes all of the bytes, the counters have room for the
  -- block, and another block of its piece waits or is requested: no `assert` fails, the answer is to
  -- request more, the block becomes a downloaded one and no other block changes its status, one request
  -- fewer is in flight, and the download counts 16384 bytes and one block more.
  pub block_arrives :
      (p : Peer S) (block k : ℕ) (bytes : List ℕ)
      → Expects p block
      → length bytes ≡ 16384
      → Writes p.world (block_length * block) bytes
      → k < block_count_for_piece p.metainfo (block / p.metainfo.blocks_per_piece)
      → k ≢ block % p.metainfo.blocks_per_piece
      → Misses p.picker (block / p.metainfo.blocks_per_piece * p.metainfo.blocks_per_piece + k)
      → (s : S) × (q : Picker) × (handle_piece w p
            (block / p.metainfo.blocks_per_piece)
            (16384 * (block % p.metainfo.blocks_per_piece))
            bytes
          ≡ some (
            no_error,
            request_more,
            record p {
              world = s;
              picker = q;
              in_flight_requests = p.in_flight_requests - 1;
              download = counted p.download 16384;
            },
          ))
        × Becomes p.picker q (λ j. if block == j then done else status p.picker j)
  block_arrives p block k bytes x len writes l other missing =
      let m = p.metainfo in
      let b = m.blocks_per_piece in
      let piece = block / b in
      let sound : IsSound m = subst IsSound x.same x.valid.sound in
      let (inside, below) = block_place sound block x.inside in
      let (q, marked, h) =
        mark_block_as_downloaded_lem x.valid block
          (subst (λ (t : Metainfo). block < t.blocks_count) (sym x.same) x.inside) x.asked in
      let left = still-Misses block k h x.same sound x.inside l other missing in
      let counts =
        count_block_lem p.download m (length bytes) x.big (omega (arith, sound.blocks_small))
          (omega (arith, x.bytes_left)) x.blocks_left
        ∙ ap (λ (c : ℕ). some (counted p.download c)) len in
      let (s, e) =
        put_block_lem p q (counted p.download 16384) piece block bytes inside x.inside
          (omega (arith, sound.blocks_small)) x.whole x.flying writes marked left counts in
      let after : ErrorKind × Peer S → Option (ErrorKind × Action × Peer S) =
        λ (err, p'). some (no_error, request_more, p') in
      let n : min block_length (m.length - block_length * block) ≡ length bytes =
        omega (arith, x.whole) in
      let chunk : chunk_bytes (length bytes) bytes ≡ bytes =
        unfold chunk_bytes in take_length-append bytes _ in
      (
        s,
        q,
        handle_flying p piece (16384 * (block % b)) bytes x.flying
            ∙ store_piece_places w p block bytes sound x.inside
            ∙ ap (λ (c : ℕ). put_block w p piece block (chunk_bytes c bytes) >>= after) n
            ∙ ap (λ (c : List ℕ). put_block w p piece block c >>= after) chunk
            ∙ ap (λ o. o >>= after) e,
        h,
      )
