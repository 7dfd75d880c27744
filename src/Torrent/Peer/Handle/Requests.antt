-- ===== src/Torrent/Peer/Handle/Requests.antt =====
-- Which blocks `peer_request_more_blocks` asks for.
use c_fs_subscriber.Base.{
  lt→ltb, Bool-cases, length, ℕ, zero, suc, ◌+◌, ◌≤◌, ◌<◌, ◌≡◌, refl, ◌∙◌, subst, ◌⊎◌, inl, inr,
  false, Option, none, some, List, [], ◌∷◌, arith, dec_lt,
}
use c_fs_subscriber.Pg.Bitarray.{Bitarray}
use c_fs_subscriber.Torrent.Metainfo.{Metainfo}
use c_fs_subscriber.Torrent.Peer.Send.Frame.{block_request}
use c_fs_subscriber.Torrent.Picker.{Picker, pick_block, mark_block_as_downloading}
use c_fs_subscriber.Torrent.Picker.Pick.{IsFirst, pick_block_lem}
use c_fs_subscriber.Torrent.Peer.{
  ErrorKind, no_error, is_error, Action, no_action, stop_requesting, Peer, World,
  max_in_flight_requests,
}
use c_fs_subscriber.Torrent.Peer.Handle.{request_loop, request_more_blocks}
use c_fs_subscriber.Torrent.Peer.Handle.Round.{IsActive, Round, round_lem, ask}

-- The picker gives out the blocks of the list, one after the other, each of them the first that waits
-- and whose piece the peer has when its turn comes.
abbrev pub Turns : Picker → Bitarray → List ℕ → Picker → Type 0
Turns q them [] q' = q' ≡ q
Turns q them (b ∷ bs) q' =
    IsFirst q them 0 (some b)
    × (next : Picker) × (mark_block_as_downloading q b ≡ some next)
    × Turns next them bs q'

-- Why no more is asked for: enough is in flight, or there is nothing to ask for.
abbrev pub Enough : {S : Type 0} → Action → Peer S → Type 0
Enough a p =
    (p.in_flight_requests ≡ max_in_flight_requests)
    ⊎ ((a ≡ stop_requesting) × IsFirst p.picker p.them_have_pieces 0 none)

-- `p'` is `p` after it has asked for the blocks `bs`.
pub record Asked {S : Type 0} (p : Peer S) (bs : List ℕ) (p' : Peer S) : Type 0 where
  pub turns : Turns p.picker p.them_have_pieces bs p'.picker
  pub flying : p'.in_flight_requests ≡ p.in_flight_requests + length bs
  pub capped : p'.in_flight_requests ≤ max_in_flight_requests
  pub active : IsActive p'

Asked-none :
    {S : Type 0} (p : Peer S)
    → IsActive p
    → p.in_flight_requests ≤ max_in_flight_requests
    → Asked p [] p
Asked-none p a l = record { turns = refl; flying = omega arith; capped = l; active = a }

Asked-cons :
    {S : Type 0} {p p' p'' : Peer S} (b : ℕ) (bs : List ℕ)
    → IsFirst p.picker p.them_have_pieces 0 (some b)
    → Round p b p'
    → Asked p' bs p''
    → Asked p (b ∷ bs) p''
Asked-cons {p' = p'} {p'' = p''} b bs first r x = record {
  turns = (
    first,
    p'.picker,
    r.marked,
    subst (λ (t : Bitarray). Turns p'.picker t bs p''.picker) r.round_them x.turns,
  );
  flying = omega (arith, x.flying, r.round_flying);
  capped = x.capped;
  active = x.active;
}

module _ (w : World) where
  open w use {S, uv_write}

  -- `uv_write` was called once for each of the messages, in their order, and for nothing else.
  abbrev pub Writes : S → List (List ℕ) → S → Type 0
  Writes s [] s' = s' ≡ s
  Writes s (m ∷ ms) s' = Writes (uv_write s m).1 ms s'

  -- the requests of the blocks
  abbrev pub requests : Metainfo → List ℕ → List (List ℕ)
  requests m [] = []
  requests m (b ∷ bs) = block_request m b ∷ requests m bs

  Writes-cons :
      (p q r : Peer S) (b : ℕ) (bs : List ℕ)
      → q.metainfo ≡ p.metainfo
      → q.world ≡ (uv_write p.world (block_request p.metainfo b)).1
      → Writes q.world (requests q.metainfo bs) r.world
      → Writes p.world (requests p.metainfo (b ∷ bs)) r.world
  Writes-cons p q r b bs same e h =
      subst (λ s. Writes s (requests p.metainfo bs) r.world) e
        (subst (λ m. Writes q.world (requests m bs) r.world) same h)

  loop_asks :
      (n : ℕ) (p : Peer S) (b : ℕ)
      → p.in_flight_requests < max_in_flight_requests
      → pick_block p.picker p.them_have_pieces ≡ some (some b)
      → request_loop w (suc n) p ≡ ask w n p b
  unfolding request_loop ask
  loop_asks n p b l e = rw (lt→ltb _ _ l, e) refl

  loop_done :
      (n : ℕ) (p : Peer S)
      → p.in_flight_requests < max_in_flight_requests
      → pick_block p.picker p.them_have_pieces ≡ some none
      → request_loop w (suc n) p ≡ some (no_error, stop_requesting, p)
  unfolding request_loop
  loop_done n p l e = rw (lt→ltb _ _ l, e) refl

  loop_full :
      (n : ℕ) (p : Peer S)
      → p.in_flight_requests ≡ max_in_flight_requests
      → request_loop w (suc n) p ≡ some (no_error, no_action, p)
  unfolding request_loop
  loop_full n p e = rw e refl

  -- The peer after it has asked for blocks, each by its request; without an error, no more is to be asked
  -- for.
  abbrev pub Asks : Peer S → Option (ErrorKind × Action × Peer S) → Type 0
  Asks p o =
      (bs : List ℕ) × (err : ErrorKind) × (a : Action) × (p' : Peer S) × (o ≡ some (err, a, p'))
      × Asked p bs p'
      × Writes p.world (requests p.metainfo bs) p'.world
      × (err ≡ no_error → Enough a p')

  -- What the loop needs of a peer, with `n` rounds left.
  abbrev Ready : ℕ → Peer S → Type 0
  Ready n p =
      IsActive p
      × (p.in_flight_requests ≤ max_in_flight_requests)
      × (max_in_flight_requests < n + p.in_flight_requests)
      × (max_in_flight_requests ≤ length p.write_ctx_pool.free_chunks + p.in_flight_requests)

  -- a round, where the rounds behind it are known
  loop_round :
      (n : ℕ) (p : Peer S)
      → Ready (suc n) p
      → p.in_flight_requests < max_in_flight_requests
      → ((q : Peer S) → Ready n q → Asks q (request_loop w n q))
      → (o : Option ℕ) → pick_block p.picker p.them_have_pieces ≡ some o
      → IsFirst p.picker p.them_have_pieces 0 o
      → Asks p (request_loop w (suc n) p)
  loop_round n p (a, capped, fuel, room) l rest none e first = (
    [],
    no_error,
    stop_requesting,
    p,
    loop_done n p l e,
    Asked-none p a capped,
    refl,
    λ _. inr (refl, first),
  )
  loop_round n p (a, capped, fuel, room) l rest (some b) e first =
      let (err, q, e', r, written) = round_lem w n p b a l (omega arith) first in
      let step = loop_asks n p b l e ∙ e' in
      let below : q.in_flight_requests ≤ max_in_flight_requests = omega (arith, r.round_flying) in
      let (bs, err', a', q', e'', x, later, enough) = rest q (
        r.round_active,
        below,
        omega (arith, r.round_flying),
        omega (arith, r.round_flying, r.round_room),
      ) in
      elim (Bool-cases (is_error err)) [
        | inl bad ↦ (
          b ∷ [],
          err,
          no_action,
          q,
          step ∙ rw bad refl,
          Asked-cons b [] first r (Asked-none q r.round_active below),
          written,
          λ z. absurd (ground arith),
        )
        | inr good ↦ (
          b ∷ bs,
          err',
          a',
          q',
          step ∙ rw good e'',
          Asked-cons b bs first r x,
          Writes-cons p q q' b bs r.round_metainfo written later,
          enough,
        )
      ]

  request_loop_lem : (n : ℕ) (p : Peer S) → Ready n p → Asks p (request_loop w n p)
  request_loop_lem zero p (a, capped, fuel, room) = absurd (omega arith)
  request_loop_lem (suc n) p (a, capped, fuel, room) = elim (dec_lt p.in_flight_requests 5) [
    | no l ↦
        let full : p.in_flight_requests ≡ max_in_flight_requests = omega arith in
        ([], no_error, no_action, p, loop_full n p full, Asked-none p a capped, refl, λ _. inl full)
    | yes l ↦
        let (o, e, first) = pick_block_lem a.valid a.them in
        loop_round n p (a, capped, fuel, room) l (request_loop_lem n) o e first
  ]

  more_loops :
      (p : Peer S)
      → p.in_flight_requests < max_in_flight_requests
      → p.them_choked ≡ false
      → request_more_blocks w p ≡ request_loop w (max_in_flight_requests + 1) p
  unfolding request_more_blocks
  more_loops p l c = ground arith

  -- For a valid picker of the same sound torrent with no block in two of its arrays, a peer whose
  -- pieces are a valid bit array, which does not choke the client and has fewer than five requests in
  -- flight, and as many free write contexts as requests may be added: asking for more blocks ends and
  -- fails no `assert`. The picker gives out, one after the other, the first block that waits and whose
  -- piece the peer has, and for each of them, and for nothing else, one message is given to `uv_write`: the
  -- request of its piece, its offset and its length. The requests in flight grow by the number of these
  -- blocks, to five at most; the picker stays valid; and without an error, five requests are in flight at
  -- the end, or no such block is left and the answer is to stop requesting.
  pub request_more_blocks_lem :
      (p : Peer S)
      → IsActive p
      → p.them_choked ≡ false
      → p.in_flight_requests < max_in_flight_requests
      → max_in_flight_requests ≤ length p.write_ctx_pool.free_chunks + p.in_flight_requests
      → Asks p (request_more_blocks w p)
  request_more_blocks_lem p a c l room =
      rw (more_loops p l c)
        (request_loop_lem (max_in_flight_requests + 1) p (a, omega arith, omega arith, room))
