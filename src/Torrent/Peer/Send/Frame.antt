-- ===== src/Torrent/Peer/Send/Frame.antt =====
-- What sending a message changes of a peer: the pool of write contexts, the world, and the download's
-- time of start.
use c_fs_subscriber.Base.{
  ◌==◌, if◌then◌else◌, Bool-cases, length, ℕ, ◌+◌, ◌-◌, ◌*◌, ◌/◌, ◌%◌, ◌≤◌, ◌<◌, min, ◌≡◌, refl, ap,
  subst, inl, inr, true, false, Option, some, List, [], ◌∷◌, arith,
}
use c_fs_subscriber.Pg.Pool
use c_fs_subscriber.Pg.Pool.{Pool, alloc}
use c_fs_subscriber.Pg.Pool.Valid.{IsValid, Gives, alloc_first, alloc_lem, free_lem}
use c_fs_subscriber.Torrent.Metainfo.{Metainfo, block_length}
use c_fs_subscriber.Torrent.Metainfo.Sound.{IsSound}
use c_fs_subscriber.Torrent.Peer.{ErrorKind, no_error, uv, Peer, World}
use c_fs_subscriber.Torrent.Peer.Decode.Trip.{request_of_lem}
use c_fs_subscriber.Torrent.Peer.Send.{send_buf, send_request, request_bytes}

-- `p'` is `p` after a message was sent, or failed to be: at most one write context was taken.
pub record Sent {S : Type 0} (p p' : Peer S) : Type 0 where
  pub same_picker : p'.picker ≡ p.picker
  pub same_metainfo : p'.metainfo ≡ p.metainfo
  pub same_them : p'.them_have_pieces ≡ p.them_have_pieces
  pub same_flying : p'.in_flight_requests ≡ p.in_flight_requests
  pub valid_pool : IsValid p'.write_ctx_pool
  pub room : length p.write_ctx_pool.free_chunks ≤ length p'.write_ctx_pool.free_chunks + 1

-- The request of a block, over the integers: the piece, where the block begins in it, and the length.
abbrev pub block_request : Metainfo → ℕ → List ℕ
block_request m block =
    request_bytes (block / m.blocks_per_piece) (16384 * (block % m.blocks_per_piece))
      (min block_length (m.length - block_length * block))

module _ (w : World) where
  open w use {S, uv_write, uv_hrtime}

  -- The message with these bytes is given to `uv_write` once, which sends it or fails.
  abbrev pub Sends : Peer S → List ℕ → Option (ErrorKind × Peer S) → Type 0
  Sends p bytes o =
      (err : ErrorKind) × (p' : Peer S) × (o ≡ some (err, p'))
      × Sent p p'
      × (p'.world ≡ (uv_write p.world bytes).1)

  send_buf_ok :
      (p : Peer S) (bytes : List ℕ) (c : ℕ) (t : Pool)
      → alloc p.write_ctx_pool ≡ (some c, t)
      → (uv_write p.world bytes).0 ≡ true
      → send_buf w p bytes
        ≡ some (no_error, record p { write_ctx_pool = t; world = (uv_write p.world bytes).1 })
  unfolding send_buf
  send_buf_ok p bytes c t e ok = ground arith

  send_buf_failed :
      (p : Peer S) (bytes : List ℕ) (c : ℕ) (t back : Pool)
      → alloc p.write_ctx_pool ≡ (some c, t)
      → (uv_write p.world bytes).0 ≡ false
      → Pool.free t c ≡ some back
      → send_buf w p bytes
        ≡ some (uv, record p { write_ctx_pool = back; world = (uv_write p.world bytes).1 })
  unfolding send_buf
  send_buf_failed p bytes c t back e bad freed = ground arith

  send_buf_from :
      (p : Peer S) (bytes : List ℕ) (c : ℕ) (cs : List ℕ)
      → IsValid p.write_ctx_pool
      → p.write_ctx_pool.free_chunks ≡ c ∷ cs
      → Sends p bytes (send_buf w p bytes)
  send_buf_from p bytes c cs v e =
      let taken = record p.write_ctx_pool { free_chunks = cs } in
      let first = alloc_first {p = p.write_ctx_pool} c cs e in
      let (chunk, valid, apart, _, _, _) = subst (Gives p.write_ctx_pool) first (alloc_lem v) in
      let (back, freed, valid', again) = free_lem {p = taken} c valid chunk apart in
      let (_, _, _, chunks, _, _) = subst (Gives back) again (alloc_lem valid') in
      elim (Bool-cases (uv_write p.world bytes).0) [
        | inl ok ↦ (
          no_error,
          record p { write_ctx_pool = taken; world = (uv_write p.world bytes).1 },
          send_buf_ok p bytes c taken first ok,
          record {
            same_picker = refl;
            same_metainfo = refl;
            same_them = refl;
            same_flying = refl;
            valid_pool = valid;
            room = ground arith;
          },
          refl,
        )
        | inr bad ↦ (
          uv,
          record p { write_ctx_pool = back; world = (uv_write p.world bytes).1 },
          send_buf_failed p bytes c taken back first bad freed,
          record {
            same_picker = refl;
            same_metainfo = refl;
            same_them = refl;
            same_flying = refl;
            valid_pool = valid';
            room =
                omega
                  (arith, ap (λ (l : List ℕ). length l) e, ap (λ (l : List ℕ). length l) chunks);
          },
          refl,
        )
      ]

  -- With a valid pool that has a free write context, sending ends, fails no `assert`, and takes at most
  -- that context.
  pub send_buf_lem :
      (p : Peer S) (bytes : List ℕ)
      → IsValid p.write_ctx_pool
      → 0 < length p.write_ctx_pool.free_chunks
      → Sends p bytes (send_buf w p bytes)
  send_buf_lem p bytes v l = go p.write_ctx_pool.free_chunks refl
    where
      go : (cs : List ℕ) → p.write_ctx_pool.free_chunks ≡ cs → Sends p bytes (send_buf w p bytes)
      go [] e = absurd (ground (arith, e))
      go (c ∷ cs) e = send_buf_from p bytes c cs v e

  -- What is sent for a block is the request of its piece, its offset and its length.
  pub send_request_lem :
      (p : Peer S) (block : ℕ)
      → IsSound p.metainfo
      → block < p.metainfo.blocks_count
      → IsValid p.write_ctx_pool
      → 0 < length p.write_ctx_pool.free_chunks
      → Sends p (block_request p.metainfo block) (send_request w p block)
  unfolding send_request
  send_request_lem p block s q v l =
      let m = p.metainfo in
      let ts = p.download.start_ts in
      let started = record p {
        download = record p.download { start_ts = if ts == 0 then uv_hrtime p.world else ts };
      } in
      let (err, p', e, x, written) = send_buf_lem started (block_request m block) v l in
      (
        err,
        p',
        rw (request_of_lem s block q) e,
        record {
          same_picker = x.same_picker;
          same_metainfo = x.same_metainfo;
          same_them = x.same_them;
          same_flying = x.same_flying;
          valid_pool = x.valid_pool;
          room = x.room;
        },
        written,
      )
