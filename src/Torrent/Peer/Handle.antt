-- ===== src/Torrent/Peer/Handle.antt =====
-- `peer_message_handle`, `peer_request_more_blocks`, and the callback that calls the latter.
pub mod Short
pub mod Round
pub mod Requests
pub mod Place
pub mod Arrive
pub mod Lost
mod Tests
use c_fs_subscriber.Base.{
  ltb, leb, ◌==◌, if◌then◌else◌, length, set, take, replicate, ◌>>=◌, ◌>>◌, assert, ℕ, zero, suc,
  ◌+◌, ◌-◌, ◌/◌, ◌%◌, true, false, ◌||◌, Option, none, some, List, ◌++◌,
}
use c_fs_subscriber.Pg.Bitarray
use c_fs_subscriber.Torrent.Metainfo.{
  block_length, block_count_for_piece, block_for_piece_to_block, block_for_piece_length,
}
use c_fs_subscriber.Torrent.Picker.{pick_block, mark_block_as_downloading}
use c_fs_subscriber.Torrent.Peer.{
  ErrorKind, no_error, invalid_piece, is_error, Action, no_action, request_more, stop_requesting,
  Message, no_message, heartbeat, choke, unchoke, interested, uninterested, bitfield, have, request,
  piece, cancel, Peer, World, max_in_flight_requests,
}
use c_fs_subscriber.Torrent.Peer.Send.{send_heartbeat, send_request, close}
use c_fs_subscriber.Torrent.Peer.Store.{put_block}

-- The first `n` bytes of a chunk of the block pool, which was zero before `bytes` were written to it.
unfoldable pub chunk_bytes : ℕ → List ℕ → List ℕ
chunk_bytes n bytes = take n (bytes ++ replicate (block_length - length bytes) 0)

module _ (w : World) where
  open w use {S}

  -- `case PMK_PIECE` for a piece that was asked for; the error of `peer_put_block` is not looked at
  unfoldable pub store_piece : Peer S → ℕ → ℕ → List ℕ → Option (ErrorKind × Action × Peer S)
  store_piece p index begin bytes = do
    let block_for_piece = begin / block_length
    assert (ltb block_for_piece (block_count_for_piece p.metainfo index))
    block ← block_for_piece_to_block p.metainfo index block_for_piece
    assert (ltb block p.metainfo.blocks_count)
    len ← block_for_piece_length p.metainfo index block_for_piece
    (_, p') ← put_block w p index block (chunk_bytes len bytes)
    some (no_error, request_more, p')

  unfoldable pub handle_piece : Peer S → ℕ → ℕ → List ℕ → Option (ErrorKind × Action × Peer S)
  handle_piece p index begin bytes =
      if p.in_flight_requests == 0
      then some (invalid_piece, no_action, p)
      else store_piece p index begin bytes

  -- the error, `*action`, and the peer
  unfoldable pub message_handle : Peer S → Message → Option (ErrorKind × Action × Peer S)
  message_handle p no_message = none
  message_handle p heartbeat = send_heartbeat w p >>= λ (err, p'). some (err, no_action, p')
  message_handle p choke = some (no_error, stop_requesting, record p { them_choked = true })
  message_handle p unchoke = some (no_error, request_more, record p { them_choked = false })
  message_handle p interested = some (no_error, no_action, record p { them_interested = true })
  message_handle p uninterested = some (no_error, no_action, record p { them_interested = false })
  message_handle p (have x) = do
    them ← Bitarray.set p.them_have_pieces x
    some (no_error, request_more, record p { them_have_pieces = them })
  message_handle p (bitfield bytes) = do
    them ← Bitarray.setv p.them_have_pieces bytes
    some (no_error, request_more, record p { them_have_pieces = them })
  message_handle p (piece index begin chunk bytes) = handle_piece p index begin bytes
  message_handle p (request index begin len) = some (no_error, no_action, p)
  message_handle p (cancel index begin len) = some (no_error, no_action, p)

  -- the loop of `peer_request_more_blocks`, with the rounds that are left; `none` also where there are
  -- none left
  unfoldable pub request_loop : ℕ → Peer S → Option (ErrorKind × Action × Peer S)
  unfolding send_request
  request_loop zero p = none
  request_loop (suc n) p =
      let round = (do
        found ← pick_block p.picker p.them_have_pieces
        elim found [
          | none ↦ some (no_error, stop_requesting, p)
          | some block ↦ (do
            picker ← mark_block_as_downloading p.picker block
            assert (leb p.in_flight_requests max_in_flight_requests)
            let p' = record p {
              picker = picker;
              in_flight_requests = (p.in_flight_requests + 1) % 256;
            }
            (err, p'') ← send_request w p' block
            if is_error err then some (err, no_action, p'') else request_loop n p'')
        ]) in
      if ltb p.in_flight_requests max_in_flight_requests
      then round
      else some (no_error, no_action, p)

  unfoldable pub request_more_blocks : Peer S → Option (ErrorKind × Action × Peer S)
  unfolding request_loop
  request_more_blocks p =
      if leb max_in_flight_requests p.in_flight_requests || p.them_choked
      then some (no_error, stop_requesting, p)
      else request_loop (max_in_flight_requests + 1) p

  unfoldable pub on_idle : Peer S → Option (Peer S)
  unfolding request_more_blocks close
  on_idle p = do
    (err, action, p') ← request_more_blocks p
    if is_error err
        then some (close w p')
        else some (elim action [ stop_requesting ↦ record p' { idle = false } | _ ↦ p' ])
