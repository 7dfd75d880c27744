-- ===== src/Torrent/Peer/Receive/Ends.antt =====
-- The loop over the messages that were received: how often it goes round.
use c_fs_subscriber.Torrent.Peer.Receive.{
  no_fuel, is_need_more, message_destroy, act, handle_one, read_loop, on_read, release, push,
}
use c_fs_subscriber.Torrent.Peer.Parse.{message_parse}
use c_fs_subscriber.Torrent.Peer.Consume.{Shrinks, message_parse-Shrinks}
use c_fs_subscriber.Torrent.Metainfo.{
  block_length, block_for_piece_to_block, block_for_piece_length, block_count_for_piece,
}
use c_fs_subscriber.Torrent.Peer.Handle.{message_handle, handle_piece, store_piece, chunk_bytes}
use c_fs_subscriber.Base.{
  ltb, if◌then◌else◌, Bool-cases, Option-cases, ◌>>=◌, assert, Each, Each-bind, Each-any, ℕ, zero,
  suc, ◌+◌, ◌/◌, ◌<◌, ◌≡◌, refl, ap, ◌∙◌, subst, ◌≢◌, inl, inr, Bool, true, false, Option, none,
  some, List, arith,
}
use c_fs_subscriber.Pg.Ring.{Ring}
use c_fs_subscriber.Torrent.Peer.{
  ErrorKind, Peer, World, Action, Message, no_message, heartbeat, choke, unchoke, interested,
  uninterested, bitfield, have, request, piece, cancel, no_action, request_more, stop_requesting,
  is_error,
}
use c_fs_subscriber.Torrent.Peer.Send.{send_buf, send_heartbeat, heartbeat_bytes, close}
use c_fs_subscriber.Torrent.Peer.Store.{put_block, finish_piece}

module _ (w : World) where
  open w use {S}

  -- The ring is `r`.
  abbrev Ringed : Ring → ErrorKind × Peer S → Type 0
  Ringed r x = x.1.recv_data ≡ r

  send_buf-Ringed : (p : Peer S) (bytes : List ℕ) → Each (Ringed p.recv_data) (send_buf w p bytes)
  unfolding send_buf
  send_buf-Ringed p bytes = ground arith

  finish_piece-Ringed :
      (p : Peer S) (index : ℕ) → Each (Ringed p.recv_data) (finish_piece w p index)
  unfolding finish_piece
  finish_piece-Ringed p index = ground arith

  put_block-Ringed :
      (p : Peer S) (index block : ℕ) (bytes : List ℕ)
      → Each (Ringed p.recv_data) (put_block w p index block bytes)
  unfolding put_block
  put_block-Ringed p index block bytes = ground arith

  -- The ring is `r`, behind a message that was handled.
  abbrev RingedThird : Ring → ErrorKind × Action × Peer S → Type 0
  RingedThird r x = x.2.recv_data ≡ r

  store_piece-Ringed :
      (p : Peer S) (index begin : ℕ) (bytes : List ℕ)
      → Each (RingedThird p.recv_data) (store_piece w p index begin bytes)
  unfolding store_piece
  store_piece-Ringed p index begin bytes =
      let R = RingedThird p.recv_data in
      let m = p.metainfo in
      let k = begin / block_length in
      Each-bind (λ _. Unit {0}) R (assert (ltb k (block_count_for_piece m index))) _ (Each-any _)
        λ _ _.
          Each-bind (λ _. Unit {0}) R (block_for_piece_to_block m index k) _ (Each-any _)
            λ block _.
              Each-bind (λ _. Unit {0}) R (assert (ltb block m.blocks_count)) _ (Each-any _)
                λ _ _.
                  Each-bind (λ _. Unit {0}) R (block_for_piece_length m index k) _ (Each-any _)
                    λ len _.
                      Each-bind (Ringed p.recv_data) R
                        (put_block w p index block (chunk_bytes len bytes)) _
                        (put_block-Ringed p index block (chunk_bytes len bytes)) λ x h. h

  handle_piece-Ringed :
      (p : Peer S) (index begin : ℕ) (bytes : List ℕ)
      → Each (RingedThird p.recv_data) (handle_piece w p index begin bytes)
  unfolding handle_piece
  handle_piece-Ringed p index begin bytes = ground (arith, store_piece-Ringed p index begin bytes)

  message_handle-Ringed :
      (p : Peer S) (msg : Message) → Each (RingedThird p.recv_data) (message_handle w p msg)
  unfolding message_handle
  message_handle-Ringed p no_message = tt
  message_handle-Ringed p heartbeat =
      Each-bind (Ringed p.recv_data) (RingedThird p.recv_data) (send_heartbeat w p) _
        (unfold send_heartbeat in send_buf-Ringed p heartbeat_bytes) λ x h. h
  message_handle-Ringed p choke = refl
  message_handle-Ringed p unchoke = refl
  message_handle-Ringed p interested = refl
  message_handle-Ringed p uninterested = refl
  message_handle-Ringed p (have x) = ground arith
  message_handle-Ringed p (bitfield bytes) = ground arith
  message_handle-Ringed p (piece index begin chunk bytes) = handle_piece-Ringed p index begin bytes
  message_handle-Ringed p (request index begin len) = refl
  message_handle-Ringed p (cancel index begin len) = refl

  act-ring :
      (a : Action) (started : Bool) (p : Peer S) → (act a started p).1.recv_data ≡ p.recv_data
  unfolding act
  act-ring request_more false p = refl
  act-ring request_more true p = refl
  act-ring stop_requesting started p = refl
  act-ring no_action started p = refl

  destroy-ring :
      (p : Peer S) (msg : Message)
      → Each (λ (q : Peer S). q.recv_data ≡ p.recv_data) (message_destroy p msg)
  unfolding message_destroy
  destroy-ring p (piece index begin chunk bytes) = ground arith
  destroy-ring p msg = ground arith

  -- The ring is `r`, behind a round.
  abbrev RingedLast : Ring → Bool × Peer S → Type 0
  RingedLast r x = x.1.recv_data ≡ r

  handle_one-Ringed :
      (p : Peer S) (msg : Message) (started : Bool)
      → Each (RingedLast p.recv_data) (handle_one w p msg started)
  unfolding handle_one
  handle_one-Ringed p msg started =
      let r = p.recv_data in
      Each-bind (RingedThird r) (RingedLast r) (message_handle w p msg) _
        (message_handle-Ringed p msg)
        λ (err, a, q) h.
          Each-bind (λ (t : Peer S). t.recv_data ≡ q.recv_data) (RingedLast r)
            (message_destroy q msg) _ (destroy-ring q msg)
            λ t h'.
              let c = if is_error err then close w t else t in
              act-ring a started c ∙ elim (Bool-cases (is_error err)) [
                | inl e ↦ rw e (unfold close in (h' ∙ h))
                | inr e ↦ rw e (h' ∙ h)
              ]

  read_loop_fuel :
      (n : ℕ) (started : Bool) (p : Peer S)
      → p.recv_data.len < n
      → read_loop w n started p ≢ no_fuel
  unfolding read_loop
  read_loop_fuel zero started p l = absurd (omega arith)
  read_loop_fuel (suc n) started p l = elim (Option-cases (message_parse p)) [
    | inl e ↦ rw (e, read_loop) (λ z. cc)
    | inr ((err, msg, q), e) ↦
        let shrinks = subst (Each (Shrinks p.recv_data.len)) e (message_parse-Shrinks p) in
        rw (e, read_loop)
          (elim (Bool-cases (is_need_more err)) [
            | inl m ↦ rw m (λ z. cc)
            | inr m ↦ elim (Bool-cases (is_error err)) [
              | inl f ↦ rw (m, f) (λ z. cc)
              | inr f ↦
                  rw (m, f)
                    (elim (Option-cases (handle_one w q msg started)) [
                      | inl h ↦ rw h (λ z. cc)
                      | inr ((started', q'), h) ↦
                          let same =
                            subst (Each (RingedLast q.recv_data)) h
                              (handle_one-Ringed q msg started) in
                          rw h (
                            read_loop_fuel n started' q'
                              (omega (arith, shrinks f, ap (λ (r : Ring). r.len) same)))
                    ])
            ]
          ])
  ]

  -- Whatever is read, and whatever the ring holds, the loop over the messages comes to its end within
  -- the fuel: a round that goes on has taken bytes off the ring, and handling a message puts none back.
  pub on_read_fuel :
      (p : Peer S) (buf : Option ℕ) (got : Option (List ℕ)) → on_read w p buf got ≢ no_fuel
  unfolding on_read
  on_read_fuel p buf none = elim (Option-cases (push p buf none >>= release buf)) [
    | inl e ↦ rw (e, on_read) (λ z. cc)
    | inr (q, e) ↦ rw (e, on_read) (λ z. cc)
  ]
  on_read_fuel p buf (some bytes) = elim (Option-cases (push p buf (some bytes) >>= release buf)) [
    | inl e ↦ rw (e, on_read) (λ z. cc)
    | inr (q, e) ↦ rw (e, on_read) (read_loop_fuel (q.recv_data.len + 1) false q (omega arith))
  ]
