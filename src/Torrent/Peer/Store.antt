-- ===== src/Torrent/Peer/Store.antt =====
-- What becomes of a block that arrived: `peer_put_block` writes it to the file, and
-- `download_checksum_piece` compares a whole piece with its hash.
use c_fs_subscriber.Base.{
  ltb, leb, ◌==◌, if◌then◌else◌, length, take, drop, ◌>>=◌, ◌>>◌, assert, add64, mul64, add32,
  mul32, ℕ, ◌-◌, not, ◌||◌, Option, none, some, List,
}
use c_fs_subscriber.Pg.Span.{memcmp_eq}
use c_fs_subscriber.Torrent.Metainfo.{
  Metainfo, block_length, piece_length_of, block_count_for_piece,
}
use c_fs_subscriber.Torrent.Picker.{have_all_blocks_for_piece, mark_block_as_downloaded}
use c_fs_subscriber.Torrent.Peer.{
  ErrorKind, no_error, os, checksum_failed, is_error, Peer, World, Download,
}

-- the hash of a piece in the torrent file, where it is all there
unfoldable pub expected_hash : Metainfo → ℕ → Option (List ℕ)
expected_hash m piece = do
  assert (leb (add32 (mul32 piece 20) 20) (length m.pieces))
  some (take 20 (drop (mul32 20 piece) m.pieces))

unfoldable pub count_failed : Download → ℕ → ℕ → Option Download
count_failed d len blocks_count = do
  assert (leb len d.downloaded_bytes)
  assert (leb blocks_count d.downloaded_blocks_count)
  some (record d {
    downloaded_bytes = d.downloaded_bytes - len;
    downloaded_blocks_count = d.downloaded_blocks_count - blocks_count;
  })

module _ (w : World) where
  open w use {S, seek, write, read, sha1}

  -- the comparison at the end of `download_checksum_piece`, on the bytes of the piece
  unfoldable pub checksum : Metainfo → ℕ → List ℕ → Option ErrorKind
  unfolding expected_hash memcmp_eq
  checksum m piece bytes = do
    hash ← sha1 bytes
    expected ← expected_hash m piece
    some (if memcmp_eq hash expected then no_error else checksum_failed)

  unfoldable pub checksum_piece : S → Metainfo → ℕ → Option (ErrorKind × S)
  unfolding checksum
  checksum_piece world m piece =
      let offset = mul32 piece m.piece_length in
      let len = piece_length_of m piece in
      let (found, world') = seek world offset in
      let (got, world'') = read world' len in
      if not found then some (os, world') else elim got [
        | none ↦ some (os, world'')
        | some bytes ↦
            if length bytes == 0 || not (length bytes == len)
            then some (os, world'')
            else (checksum m piece bytes >>= λ err. some (err, world''))
      ]

  -- the counters of the download, when a block of `len` bytes is in the file
  unfoldable pub count_block : Download → Metainfo → ℕ → Option Download
  count_block d m len = do
    let d' = record d {
      downloaded_bytes = add64 d.downloaded_bytes len;
      downloaded_blocks_count = add32 d.downloaded_blocks_count 1;
    }
    assert (leb d'.downloaded_bytes m.length)
    assert (leb d'.downloaded_blocks_count m.blocks_count)
    some d'

  -- `if (picker_have_all_blocks_for_piece(...))` and what follows
  unfoldable pub finish_piece : Peer S → ℕ → Option (ErrorKind × Peer S)
  unfolding checksum_piece count_failed
  finish_piece p piece =
      let m = p.metainfo in
      let check = (do
        (err, world) ← checksum_piece p.world m piece
        if is_error err
            then (do
              d ← count_failed p.download (piece_length_of m piece) (block_count_for_piece m piece)
              some (err, record p { world = world; download = d }))
            else (do
              let n = add32 p.download.downloaded_pieces_count 1
              assert (leb n m.pieces_count)
              some (
                no_error,
                record p {
                  world = world;
                  download = record p.download { downloaded_pieces_count = n };
                },
              ))) in
      have_all_blocks_for_piece p.picker piece >>= λ all. if all then check else some (no_error, p)

  unfoldable pub put_block : Peer S → ℕ → ℕ → List ℕ → Option (ErrorKind × Peer S)
  unfolding finish_piece count_block
  put_block p piece block bytes = do
    assert (ltb piece p.metainfo.pieces_count)
    assert (ltb block p.metainfo.blocks_count)
    let offset = mul64 block block_length
    assert (leb (add64 offset block_length) p.metainfo.length)
    let (found, world) = seek p.world offset
    let (written, world') = write world bytes
    let failed : S → Option (ErrorKind × Peer S) = λ s. some (os, record p { world = s })
    let count = (do
      picker ← mark_block_as_downloaded p.picker block
      assert (ltb 0 p.in_flight_requests)
      d ← count_block p.download p.metainfo (length bytes)
      finish_piece
          (record p {
            world = world';
            picker = picker;
            in_flight_requests = p.in_flight_requests - 1;
            download = d;
          })
          piece)
    if not found then failed world else elim written [
      | none ↦ failed world'
      | some n ↦
          if n == 0 then failed world' else if not (n == length bytes) then failed world' else count
    ]
