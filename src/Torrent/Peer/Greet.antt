-- ===== src/Torrent/Peer/Greet.antt =====
-- The handshake that a peer sends, read by another one.
use c_fs_subscriber.Base.{
  ltb, ◌==◌, eq→==, length, drop, replicate, length-append, take_length-append, drop_length-append,
  add64, ℕ, ◌+◌, ◌≡◌, refl, ap, ◌∙◌, subst, true, false, some, List, [], ◌∷◌, ◌++◌, arith,
}
use c_fs_subscriber.Pg.Ring.{Ring}
use c_fs_subscriber.Pg.Span.{Span, memcmp_eq}
use c_fs_subscriber.Torrent.Peer.{Peer, no_error, handshake_length}
use c_fs_subscriber.Torrent.Peer.Parse.{check_handshaked, read_handshake, header}
use c_fs_subscriber.Torrent.Peer.Send.{handshake_bytes, peer_id}
use c_fs_subscriber.Torrent.Peer.Wire.{pop_many}
use c_fs_subscriber.Torrent.Peer.Wire.Holds.{Holds, Holds-len, pop_many-Reads}

memcmp_eq-append : (xs ys : Span) → memcmp_eq xs (xs ++ ys) ≡ true
unfolding memcmp_eq
memcmp_eq-append [] ys = refl
memcmp_eq-append (x ∷ xs) ys = rw (eq→== x x refl, memcmp_eq-append xs ys) refl

length-handshake_bytes :
    (hash : List ℕ) → length hash ≡ 20 → length (handshake_bytes hash) ≡ handshake_length
unfolding handshake_bytes
length-handshake_bytes hash h = omega (arith, length-append hash peer_id)

header-handshake_bytes : (hash : List ℕ) → memcmp_eq header (handshake_bytes hash) ≡ true
unfolding handshake_bytes
header-handshake_bytes hash = memcmp_eq-append header (replicate 8 0 ++ (hash ++ peer_id))

hash-handshake_bytes : (hash : List ℕ) → memcmp_eq hash (drop 28 (handshake_bytes hash)) ≡ true
unfolding handshake_bytes
hash-handshake_bytes hash = memcmp_eq-append hash peer_id

module _ {S : Type 0} (p : Peer S) (rest : List ℕ) (hash : length p.download.info_hash ≡ 20)
    (h : Holds p.recv_data (handshake_bytes p.download.info_hash ++ rest)) where
  whole : length (handshake_bytes p.download.info_hash ++ rest) ≡ 68 + length rest
  whole = omega (
    arith,
    length-append (handshake_bytes p.download.info_hash) rest,
    length-handshake_bytes p.download.info_hash hash,
  )

  -- A peer that was sent the handshake of a client with the same torrent takes it off its ring and is
  -- then in the conversation, with what follows left on the ring and all else as it was.
  pub handshake_round_trip :
      p.handshaked ≡ false
      → (r : Ring) × (check_handshaked p
          ≡ some (no_error, record p { recv_data = r; handshaked = true }))
        × Holds r rest
  unfolding check_handshaked read_handshake
  handshake_round_trip new =
      let hb = handshake_bytes p.download.info_hash in
      let n : length hb ≡ 68 = length-handshake_bytes p.download.info_hash hash in
      let (r, e, h', c) = pop_many-Reads (length hb) (hb ++ rest) h (omega (arith, whole)) in
      let h'' = subst (Holds r) (drop_length-append hb rest) h' in
      let e' : pop_many 68 p.recv_data ≡ some (hb, r) =
        subst (λ k. pop_many k p.recv_data ≡ some (hb, r)) n
          (e ∙ ap (λ t. some (t, r)) (take_length-append hb rest)) in
      let long : ltb p.recv_data.len 68 ≡ false = ground (arith, Holds-len h, whole) in
      let counted : (add64 r.len 68 == p.recv_data.len) ≡ true =
        ground (arith, Holds-len h, Holds-len h'', whole, h.valid) in
      (
        r,
        simp (
          new,
          long,
          e',
          header-handshake_bytes p.download.info_hash,
          hash-handshake_bytes p.download.info_hash,
          counted,
        ),
        h'',
      )
