-- ===== src/Torrent/Peer/Handle/Round.antt =====
-- One round of the loop of `peer_request_more_blocks`.
use c_fs_subscriber.Base.{
  leb, ◌==◌, if◌then◌else◌, le→leb, length, ◌>>=◌, ◌>>◌, assert, ℕ, ◌+◌, ◌-◌, ◌%◌, ◌≤◌, ◌<◌, ◌≡◌,
  refl, sym, ap, ◌∙◌, subst, ◌≢◌, true, Option, some, arith,
}
use c_fs_subscriber.Pg.Bitarray.{Bitarray}
use c_fs_subscriber.Pg.Bitarray.Bits.{bit}
use c_fs_subscriber.Pg.Bitarray.Bits
use c_fs_subscriber.Pg.Pool.Valid
use c_fs_subscriber.Torrent.Metainfo.{Metainfo}
use c_fs_subscriber.Torrent.Metainfo.Sound.{IsSound}
use c_fs_subscriber.Torrent.Picker.{Picker, mark_block_as_downloading}
use c_fs_subscriber.Torrent.Picker.Valid.{
  IsValid, Becomes, waiting, requested, mixed, status, mark_block_as_downloading_lem,
}
use c_fs_subscriber.Torrent.Picker.Pick.{IsFirst, IsHave, candidate}
use c_fs_subscriber.Torrent.Peer.{
  ErrorKind, is_error, Action, no_action, Peer, World, max_in_flight_requests,
}
use c_fs_subscriber.Torrent.Peer.Handle.{request_loop}
use c_fs_subscriber.Torrent.Peer.Send.{send_request}
use c_fs_subscriber.Torrent.Peer.Send.Frame.{Sent, send_request_lem, block_request}

-- No block of the file stands in two of the picker's arrays, or in none.
abbrev pub IsClear : Picker → Type 0
IsClear q = (j : ℕ) → j < q.metainfo.blocks_count → status q j ≢ mixed

pub record IsActive {S : Type 0} (p : Peer S) : Type 0 where
  pub valid : IsValid p.picker
  pub clear : IsClear p.picker
  pub same : p.picker.metainfo ≡ p.metainfo
  pub them : IsHave p.picker p.them_have_pieces
  pub pool : Valid.IsValid p.write_ctx_pool

candidate-waiting :
    (q : Picker) (them : Bitarray) (b : ℕ)
    → candidate q them b ≡ true
    → status q b ≢ mixed
    → status q b ≡ waiting
unfolding candidate status
candidate-waiting q them b c m = ground arith

Becomes-IsClear :
    {q q' : Picker} (b : ℕ)
    → IsClear q
    → Becomes q q' (λ j. if b == j then requested else status q j)
    → IsClear q'
Becomes-IsClear {q} b c h j l =
    let k = subst (λ (m : Metainfo). j < m.blocks_count) h.same l in
    ground (arith, h.statuses j k, c j k)

Sent-IsActive : {S : Type 0} {p p' : Peer S} → Sent p p' → IsActive p → IsActive p'
Sent-IsActive s a = record {
  valid = subst IsValid (sym s.same_picker) a.valid;
  clear = subst IsClear (sym s.same_picker) a.clear;
  same = ap (λ (q : Picker). q.metainfo) s.same_picker ∙ a.same ∙ sym s.same_metainfo;
  them = record {
    valid = subst Bits.IsValid (sym s.same_them) a.them.valid;
    max =
        ap (λ (b : Bitarray). b.max_index) s.same_them
        ∙ a.them.max
        ∙ ap (λ (q : Picker). q.metainfo.pieces_count - 1) (sym s.same_picker);
  };
  pool = s.valid_pool;
}

-- `p'` is `p` after it has asked for the block `b`.
pub record Round {S : Type 0} (p : Peer S) (b : ℕ) (p' : Peer S) : Type 0 where
  pub marked : mark_block_as_downloading p.picker b ≡ some p'.picker
  pub round_metainfo : p'.metainfo ≡ p.metainfo
  pub round_them : p'.them_have_pieces ≡ p.them_have_pieces
  pub round_flying : p'.in_flight_requests ≡ p.in_flight_requests + 1
  pub round_active : IsActive p'
  pub round_room : length p.write_ctx_pool.free_chunks ≤ length p'.write_ctx_pool.free_chunks + 1

module _ (w : World) where
  open w use {S, uv_write}

  -- what a round does after `picker_pick_block` found a block
  unfoldable pub ask : ℕ → Peer S → ℕ → Option (ErrorKind × Action × Peer S)
  ask n p block = do
    picker ← mark_block_as_downloading p.picker block
    assert (leb p.in_flight_requests max_in_flight_requests)
    let p' = record p { picker = picker; in_flight_requests = (p.in_flight_requests + 1) % 256 }
    (err, p'') ← send_request w p' block
    if is_error err then some (err, no_action, p'') else request_loop w n p''

  pub round_lem :
      (n : ℕ) (p : Peer S) (b : ℕ)
      → IsActive p
      → p.in_flight_requests < max_in_flight_requests
      → 0 < length p.write_ctx_pool.free_chunks
      → IsFirst p.picker p.them_have_pieces 0 (some b)
      → (err : ErrorKind) × (p' : Peer S) × (ask n p b
          ≡ (if is_error err then some (err, no_action, p') else request_loop w n p'))
        × Round p b p'
        × (p'.world ≡ (uv_write p.world (block_request p.metainfo b)).1)
  unfolding ask
  round_lem n p b a f l (inside, c, first) =
      let (q, e, h) =
        mark_block_as_downloading_lem a.valid b inside
          (candidate-waiting p.picker p.them_have_pieces b c (a.clear b inside)) in
      let p' = record p { picker = q; in_flight_requests = (p.in_flight_requests + 1) % 256 } in
      let active : IsActive p' = record {
        valid = h.valid;
        clear = Becomes-IsClear b a.clear h;
        same = h.same ∙ a.same;
        them = record {
          valid = a.them.valid;
          max = a.them.max ∙ ap (λ (m : Metainfo). m.pieces_count - 1) (sym h.same);
        };
        pool = a.pool;
      } in
      let sound = subst IsSound a.same a.valid.sound in
      let (err, p'', e', s, written) =
        send_request_lem w p' b sound (subst (λ (m : Metainfo). b < m.blocks_count) a.same inside)
          a.pool l in
      (
        err,
        p'',
        rw (e, le→leb p.in_flight_requests max_in_flight_requests (omega arith), e') refl,
        record {
          marked = e ∙ ap some (sym s.same_picker);
          round_metainfo = s.same_metainfo;
          round_them = s.same_them;
          round_flying = s.same_flying ∙ omega arith;
          round_active = Sent-IsActive s active;
          round_room = s.room;
        },
        written,
      )
