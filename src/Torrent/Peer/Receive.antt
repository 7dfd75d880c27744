-- ===== src/Torrent/Peer/Receive.antt =====
-- `peer_on_read`: what is read goes into the ring, and the messages that are complete are handled one
-- after the other. The loop over the messages takes fuel.
pub mod Ends
use c_fs_subscriber.Base.{
  if◌then◌else◌, ◌>>=◌, ◌>>◌, sub32, ℕ, zero, suc, ◌+◌, Bool, true, false, Option, none, some, List,
}
use c_fs_subscriber.Pg.Pool
use c_fs_subscriber.Pg.Ring
use c_fs_subscriber.Pg.Bitarray
use c_fs_subscriber.Torrent.Metainfo.{Metainfo, block_length}
use c_fs_subscriber.Torrent.Picker.{Picker}
use c_fs_subscriber.Torrent.Peer.{
  ErrorKind, need_more, is_error, Action, request_more, stop_requesting, Message, piece, Peer,
  World, Download, max_in_flight_requests,
}
use c_fs_subscriber.Torrent.Peer.Parse.{message_parse}
use c_fs_subscriber.Torrent.Peer.Send.{close}
use c_fs_subscriber.Torrent.Peer.Handle.{message_handle}

-- How the loop ends: by itself, with a fault, or because it has no fuel left, which has no counterpart
-- in the program.
pub data Run (A : Type 0) : Type 0 where
  ends : A → Run A
  stops no_fuel : Run A

abbrev pub is_need_more : ErrorKind → Bool
is_need_more need_more = true
is_need_more _ = false

-- `pg_pool_init`, for the three pools of a peer; a `peer_write_ctx_t` has `ctx_size` bytes
unfoldable pub init : {S : Type 0} → ℕ → S → Download → Metainfo → Picker → Option (Peer S)
init ctx_size world download m picker = do
  write_ctx_pool ← Pool.init ctx_size (max_in_flight_requests + 20)
  read_buf_pool ← Pool.init 17000 30
  block_pool ← Pool.init block_length max_in_flight_requests
  recv_data ← Ring.init 34000
  some (record {
    picker = picker;
    write_ctx_pool = write_ctx_pool;
    read_buf_pool = read_buf_pool;
    block_pool = block_pool;
    download = download;
    metainfo = m;
    them_have_pieces = Bitarray.init (sub32 m.pieces_count 1);
    recv_data = recv_data;
    me_choked = true;
    me_interested = false;
    them_choked = true;
    them_interested = false;
    handshaked = false;
    in_flight_requests = 0;
    idle = false;
    closing = false;
    world = world;
  })

unfoldable pub message_destroy : {S : Type 0} → Peer S → Message → Option (Peer S)
message_destroy p (piece index begin chunk bytes) = do
  pool ← Pool.free p.block_pool chunk
  some (record p { block_pool = pool })
message_destroy p _ = some p

-- `uv_idle_start` and `uv_idle_stop` behind a message: `idle_started`, and the peer
unfoldable pub act : {S : Type 0} → Action → Bool → Peer S → Bool × Peer S
act request_more false p = (true, record p { idle = true })
act stop_requesting started p = (started, record p { idle = false })
act _ started p = (started, p)

-- `pg_pool_free` of the read buffer
unfoldable pub release : {S : Type 0} → Option ℕ → Peer S → Option (Peer S)
release none p = some p
release (some c) p =
    Pool.free p.read_buf_pool c >>= λ pool. some (record p { read_buf_pool = pool })

-- what `peer_on_read` does if bytes came, which need a buffer
unfoldable pub push : {S : Type 0} → Peer S → Option ℕ → Option (List ℕ) → Option (Peer S)
push p buf none = some p
push p none (some bytes) = none
push p (some c) (some bytes) = do
  ring ← Ring.push_backv p.recv_data bytes
  some (record p { recv_data = ring })

module _ (w : World) where
  open w use {S}

  -- a message that was parsed: handled, destroyed, and its action taken
  unfoldable pub handle_one : Peer S → Message → Bool → Option (Bool × Peer S)
  handle_one p msg idle_started = do
    (err, action, p') ← message_handle w p msg
    p'' ← message_destroy p' msg
    some (act action idle_started (if is_error err then close w p'' else p''))

  unfoldable pub read_loop : ℕ → Bool → Peer S → Run (Peer S)
  read_loop zero idle_started p = no_fuel
  read_loop (suc n) idle_started p = elim (message_parse p) [
    | none ↦ stops
    | some (err, msg, p') ↦
        let next : Run (Peer S) = elim (handle_one p' msg idle_started) [
          | none ↦ stops
          | some (idle_started', p'') ↦ read_loop n idle_started' p''
        ] in
        if is_need_more err then ends p' else if is_error err then ends (close w p') else next
  ]

  -- `buf` is the chunk of the buffer, if it has one; `got` the bytes, if `nread` is above 0
  unfoldable pub on_read : Peer S → Option ℕ → Option (List ℕ) → Run (Peer S)
  on_read p buf got = elim (push p buf got >>= release buf) [
    | none ↦ stops
    | some p' ↦ elim got [
      | none ↦ ends (close w p')
      | some bytes ↦ read_loop (p'.recv_data.len + 1) false p'
    ]
  ]
