-- ===== src/Torrent/Peer/Send.antt =====
-- The messages that the client sends (`peer_send_*` of torrent/peer.h). The buffer of a message is
-- handed to `uv_write`, which calls `peer_on_write` later.
pub mod Frame
use c_fs_subscriber.Base.{
  ◌==◌, if◌then◌else◌, replicate, ◌>>=◌, sub32, mul32, ℕ, ◌/◌, Bool, true, not, Option, some, List,
  [], ◌∷◌, ◌++◌,
}
use c_fs_subscriber.Pg.Pool
use c_fs_subscriber.Torrent.Metainfo.{
  Metainfo, block_length, block_to_block_for_piece, block_for_piece_length,
}
use c_fs_subscriber.Torrent.Peer.{ErrorKind, no_error, uv, is_error, Peer, World}
use c_fs_subscriber.Torrent.Peer.Parse.{header}
use c_fs_subscriber.Torrent.Peer.Wire.{write_u32, write_u8}

abbrev pub peer_id : List ℕ
peer_id =
    1 ∷ 2 ∷ 3 ∷ 4 ∷ 5 ∷ 6 ∷ 7 ∷ 8 ∷ 9 ∷ 10 ∷ 11 ∷ 12 ∷ 13 ∷ 14 ∷ 15 ∷ 16 ∷ 17 ∷ 18 ∷ 19 ∷ 20 ∷ []

unfoldable pub heartbeat_bytes : List ℕ
heartbeat_bytes = replicate 4 0

unfoldable pub handshake_bytes : List ℕ → List ℕ
handshake_bytes info_hash = header ++ (replicate 8 0 ++ (info_hash ++ peer_id))

unfoldable pub request_bytes : ℕ → ℕ → ℕ → List ℕ
unfolding write_u32 write_u8
request_bytes piece begin len =
    write_u32 (write_u32 (write_u32 (write_u8 (write_u32 [] 13) 6) piece) begin) len

-- a message of a length and a tag
unfoldable pub plain_bytes : ℕ → List ℕ
unfolding write_u32 write_u8
plain_bytes tag = write_u8 (write_u32 [] 1) tag

-- The piece of a block, where it begins in the piece, and its length, as `peer_send_request` computes
-- them.
unfoldable pub request_of : Metainfo → ℕ → Option (ℕ × ℕ × ℕ)
request_of m block = do
  let piece = block / m.blocks_per_piece
  let begin = sub32 (mul32 block block_length) (mul32 piece m.piece_length)
  block_for_piece ← block_to_block_for_piece m piece block
  len ← block_for_piece_length m piece block_for_piece
  some (piece, begin, len)

module _ (w : World) where
  open w use {S, uv_write, uv_hrtime}

  -- `peer_close`, which may be called again
  unfoldable pub close : Peer S → Peer S
  close p = record p { closing = true }

  unfoldable pub on_write : Peer S → ℕ → Bool → Option (Peer S)
  unfolding close
  on_write p ctx ok = do
    pool ← Pool.free p.write_ctx_pool ctx
    let p' = record p { write_ctx_pool = pool }
    some (if ok then p' else close p')

  unfoldable pub send_buf : Peer S → List ℕ → Option (ErrorKind × Peer S)
  send_buf p bytes = do
    let (found, pool) = Pool.alloc p.write_ctx_pool
    ctx ← found
    let (ok, world) = uv_write p.world bytes
    let p' = record p { write_ctx_pool = pool; world = world }
    if ok
        then some (no_error, p')
        else (do pool' ← Pool.free pool ctx; some (uv, record p' { write_ctx_pool = pool' }))

  unfoldable pub send_heartbeat : Peer S → Option (ErrorKind × Peer S)
  unfolding send_buf heartbeat_bytes
  send_heartbeat p = send_buf p heartbeat_bytes

  unfoldable pub send_handshake : Peer S → Option (ErrorKind × Peer S)
  unfolding send_buf handshake_bytes
  send_handshake p = send_buf p (handshake_bytes p.download.info_hash)

  unfoldable pub send_request : Peer S → ℕ → Option (ErrorKind × Peer S)
  unfolding send_buf request_of request_bytes
  send_request p block = do
    (piece, begin, len) ← request_of p.metainfo block
    let ts = p.download.start_ts
    let download = record p.download { start_ts = if ts == 0 then uv_hrtime p.world else ts }
    send_buf (record p { download = download }) (request_bytes piece begin len)

  unfoldable pub send_choke : Peer S → Option (ErrorKind × Peer S)
  unfolding send_buf plain_bytes
  send_choke p = send_buf p (plain_bytes 0)

  unfoldable pub send_interested : Peer S → Option (ErrorKind × Peer S)
  unfolding send_buf plain_bytes
  send_interested p = send_buf p (plain_bytes 2)

  unfoldable pub send_prologue : Peer S → Option (ErrorKind × Peer S)
  unfolding send_handshake send_interested
  send_prologue p = do
    (err, p') ← send_handshake p
    if is_error err
        then some (err, p')
        else (send_interested p' >>= λ (err', p'').
            if is_error err'
            then some (err', p'')
            else some (err', record p'' { me_interested = true }))

  -- `ok` is `status == 0`
  unfoldable pub on_connect : Peer S → Bool → Option (Peer S)
  unfolding close send_prologue
  on_connect p ok =
      let (started, world) = w.uv_read_start p.world in
      let p' = record p { world = world } in
      if not ok
      then some (close p)
      else if not started
      then some (close p')
      else (send_prologue p' >>= λ (err, p''). some (if is_error err then close p'' else p''))
