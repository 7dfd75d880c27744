-- ===== src/Torrent/Tracker/Url.antt =====
-- The url that the tracker is asked with.
use c_fs_subscriber.Base.{
  lt→ltb, le→ltb, eq→==, ne→==, length, take, drop, replicate, All, length-append, length-replicate,
  take_all, ℕ, zero, suc, ◌+◌, ◌-◌, ◌/◌, ◌%◌, ◌≤◌, ◌<◌, ◌≡◌, refl, ap, ◌∙◌, subst, ◌≢◌, some, [],
  ◌∷◌, ◌++◌, append_assoc, arith, dec_lt, ℕ_discrete,
}
use c_fs_subscriber.Pg.Span.{Span}
use c_fs_subscriber.Pg.Str.{Str, write, make_reserve, heap_realloc}
use c_fs_subscriber.Pg.Str.Encode.{encoded, url_encode-encoded, length-encoded}
use c_fs_subscriber.Pg.Str.Append.{write_some}
use c_fs_subscriber.Torrent.Peer.Send.{peer_id}
use c_fs_subscriber.Torrent.Tracker.Query.{
  Query, until_nul, decimal_from, decimal, url_text, build_url_from_query, info_hash_text,
  peer_id_text, port_text, uploaded_text, downloaded_text, left_text, compact_text,
}

-- at most `n` bytes, and no 0
record Piece (n : ℕ) (s : Span) : Type 0 where
  short : length s ≤ n
  no_nul : All (λ c. c ≢ 0) s

Piece-append : {n m : ℕ} {s t : Span} → Piece n s → Piece m t → Piece (n + m) (s ++ t)
Piece-append {s = s} {t = t} p q = record {
  short = omega (arith, length-append s t, p.short, q.short);
  no_nul = All-append s t p.no_nul q.no_nul;
}
  where
    All-append : (s t : Span) → All (λ c. c ≢ 0) s → All (λ c. c ≢ 0) t → All (λ c. c ≢ 0) (s ++ t)
    All-append [] t a b = b
    All-append (x ∷ s) t (h, a) b = (h, All-append s t a b)

until_nul-Piece : (s : Span) → Piece (length s) (until_nul s)
unfolding until_nul
until_nul-Piece [] = record { short = omega arith; no_nul = tt }
until_nul-Piece (c ∷ s) = elim (ℕ_discrete c 0) [
  | yes e ↦ rw (eq→== c 0 e) (record { short = omega arith; no_nul = tt })
  | no e ↦ rw (ne→== c 0 e) (record {
    short = omega (arith, (until_nul-Piece s).short);
    no_nul = (e, (until_nul-Piece s).no_nul);
  })
]

until_nul-end : (s t : Span) → All (λ c. c ≢ 0) s → until_nul (s ++ (0 ∷ t)) ≡ s
unfolding until_nul
until_nul-end [] t h = refl
until_nul-end (c ∷ s) t (e, h) = rw (ne→== c 0 e) (ap (λ r. c ∷ r) (until_nul-end s t h))

decimal-Piece : (f n : ℕ) → Piece f (decimal_from f n)
unfolding decimal_from
decimal-Piece zero n = record { short = omega arith; no_nul = tt }
decimal-Piece (suc f) n = elim (dec_lt n 10) [
  | yes h ↦ rw (lt→ltb n 10 h) (record { short = omega arith; no_nul = (λ e. omega arith, tt) })
  | no h ↦ rw (le→ltb n 10 (omega arith)) (
      let p = Piece-append (decimal-Piece f (n / 10)) (one (n % 10 + 48) (omega arith)) in
      record { short = omega (arith, p.short); no_nul = p.no_nul })
]
  where
    one : (c : ℕ) → 0 < c → Piece 1 (c ∷ [])
    one c h = record { short = omega arith; no_nul = (λ e. omega arith, tt) }

widen : {n m : ℕ} {s : Span} → n ≤ m → Piece n s → Piece m s
widen h p = record { short = omega (arith, p.short); no_nul = p.no_nul }

-- a text of the format string
literal : (s : Span) → until_nul s ≡ s → Piece (length s) s
literal s e = subst (Piece (length s)) e (until_nul-Piece s)

url_text-Piece :
    (q : Query) (hash id : Span)
    → length q.url < 4196
    → length hash ≤ 60
    → length id ≤ 60
    → Piece 4460 (url_text q hash id)
unfolding url_text decimal until_nul
url_text-Piece q hash id u h i = widen (omega (arith)) (
    Piece-append (widen {m = 4195} (omega arith) (until_nul-Piece q.url)) (
      Piece-append (literal info_hash_text refl) (
        Piece-append (widen h (until_nul-Piece hash)) (
          Piece-append (literal peer_id_text refl) (
            Piece-append (widen i (until_nul-Piece id)) (
              Piece-append (literal port_text refl) (
                Piece-append (decimal-Piece 20 q.port) (
                  Piece-append (literal uploaded_text refl) (
                    Piece-append (decimal-Piece 20 q.uploaded) (
                      Piece-append (literal downloaded_text refl) (
                        Piece-append (decimal-Piece 20 q.downloaded) (
                          Piece-append (literal left_text refl) (
                            Piece-append (decimal-Piece 20 q.left)
                              (literal compact_text refl))))))))))))))

printed :
    (t : Span) (p : length t ≤ 4999)
    → (b : Span) × (write (make_reserve 5000).buffer 0 (t ++ (0 ∷ [])) ≡ some (t ++ (0 ∷ b)))
unfolding make_reserve heap_realloc
printed t p = (
  drop (0 + length (t ++ (0 ∷ []))) (replicate (5000 + 1 - 0) 0),
  write_some (replicate (5000 + 1 - 0) 0) 0 (t ++ (0 ∷ []))
        (omega (arith, length-append t (0 ∷ []), length-replicate {A = ℕ} (5000 + 1 - 0) 0))
      ∙ ap some (
          append_assoc t (0 ∷ []) (drop (0 + length (t ++ (0 ∷ []))) (replicate (5000 + 1 - 0) 0))),
)

-- For the url of a tracker of less than 4196 bytes and a hash of 20 bytes, the string that is built shows the
-- whole of what the format string prints, with the hash and the id url-encoded: `snprintf` cuts off nothing.
pub build_url_from_query_lem :
    (q : Query)
    → length q.url < 4196
    → length q.info_hash ≡ 20
    → (r : Str) × (build_url_from_query q ≡ some r)
      × (until_nul r.buffer ≡ url_text q (encoded q.info_hash) (encoded peer_id))
unfolding build_url_from_query make_reserve
build_url_from_query_lem q u h =
    let (hash, e1, v1, t1) = url_encode-encoded q.info_hash in
    let (id, e2, v2, t2) = url_encode-encoded peer_id in
    let p =
      url_text-Piece q (encoded q.info_hash) (encoded peer_id) u
        (omega (arith, length-encoded q.info_hash, h)) (omega (arith, length-encoded peer_id)) in
    let whole : take 4999 (url_text q (encoded q.info_hash) (encoded peer_id))
        ≡ url_text q (encoded q.info_hash) (encoded peer_id) =
      take_all 4999 (url_text q (encoded q.info_hash) (encoded peer_id)) (omega (arith, p.short)) in
    let (b, w) =
      printed (url_text q (encoded q.info_hash) (encoded peer_id)) (omega (arith, p.short)) in
    (
      record (make_reserve 5000) {
        buffer = url_text q (encoded q.info_hash) (encoded peer_id) ++ (0 ∷ b);
      },
      rw (e1, e2, lt→ltb (length q.url) 4196 u, t1, t2, whole, w) refl,
      until_nul-end (url_text q (encoded q.info_hash) (encoded peer_id)) b p.no_nul,
    )
