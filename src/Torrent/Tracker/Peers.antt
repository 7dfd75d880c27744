-- ===== src/Torrent/Tracker/Peers.antt =====
-- The loop over a value of `peers` reads the addresses back.
use c_fs_subscriber.Base.{
  leb, if◌then◌else◌, le→leb, lt→leb, eq→==, Bool-cases, length, take, All, length-append, take_all,
  take_length-append, drop_length-append, ℕ, suc, ◌+◌, ◌*◌, ◌/◌, ◌%◌, ◌<◌, ◌≡◌, refl, sym, ap, ◌∙◌,
  inl, inr, true, none, some, List, [], ◌∷◌, ◌++◌, append-nil, append_assoc, arith, dec_lt,
}
use c_fs_subscriber.Pg.Span
use c_fs_subscriber.Pg.Span.{Span}
use c_fs_subscriber.Torrent.Bencode.{integer, string, dictionary}
use c_fs_subscriber.Torrent.Tracker.{
  Address, load, peers_loop, parse_peer_addresses, peers_key, no_error, read_entries, read_entry,
  Addresses, peers6_key,
}

-- 4 bytes and 2 bytes
abbrev pub IsAddress : Address → Type 0
IsAddress a = (length a.ip ≡ 4) × (length a.port ≡ 2)

-- the compact form of BEP 23
abbrev pub compact : List Address → Span
compact [] = []
compact (a ∷ xs) = a.ip ++ (a.port ++ compact xs)

load_at :
    (s pre x y : Span) (j n : ℕ)
    → s ≡ pre ++ (x ++ y)
    → j ≡ length pre
    → n ≡ length x
    → load s j n ≡ some x
unfolding load
load_at s pre x y j n e f g =
    rw
      (
        e,
        f,
        g,
        le→leb (length pre + length x) (length (pre ++ (x ++ y)))
            (omega (arith, length-append pre (x ++ y), length-append x y)),
        drop_length-append pre (x ++ y),
        take_length-append x y,
      )
      refl

take_first : (n : ℕ) (xs ys : List Address) → n ≡ length xs → take n (xs ++ ys) ≡ xs
take_first n xs ys e = rw e (take_length-append xs ys)

length-compact : (xs : List Address) → All IsAddress xs → length (compact xs) ≡ 6 * length xs
length-compact [] w = refl
length-compact (a ∷ xs) (w, ws) = omega (
  arith,
  length-append a.ip (a.port ++ compact xs),
  length-append a.port (compact xs),
  length-compact xs ws,
  w.0,
  w.1,
)

-- the loop, from the place on where the addresses `xs` stand
peers_loop-compact :
    (s pre : Span) (xs addrs : List Address) (j : ℕ)
    → All IsAddress xs
    → length addrs < 50
    → s ≡ pre ++ compact xs
    → j ≡ length pre
    → peers_loop s (length xs) j addrs
      ≡ some (leb 50 (length addrs + length xs), take 50 (addrs ++ xs))
unfolding peers_loop
peers_loop-compact s pre [] addrs j w l e f =
    rw
      (
        append-nil addrs,
        lt→leb 50 (length addrs + 0) (omega arith),
        take_all 50 addrs (omega arith),
      )
      refl
peers_loop-compact s pre (a ∷ xs) addrs j (w, ws) l e f =
    let split : s ≡ (pre ++ a.ip) ++ (a.port ++ compact xs) =
      e ∙ sym (append_assoc pre a.ip (a.port ++ compact xs)) in
    let left : load s j 4 ≡ some a.ip =
      load_at s pre a.ip (a.port ++ compact xs) j 4 e f (sym w.0) in
    let right : load s (j + 4) 2 ≡ some a.port =
      load_at s (pre ++ a.ip) a.port (compact xs) (j + 4) 2 split
        (omega (arith, length-append pre a.ip, w.0)) (sym w.1) in
    let grown : length (addrs ++ (a ∷ [])) ≡ length addrs + 1 = length-append addrs (a ∷ []) in
    elim (dec_lt (length addrs + 1) 50) [
      | yes h ↦
          rw
            (
              left,
              right,
              lt→leb 50 (length (addrs ++ (a ∷ []))) (omega (arith, grown)),
              peers_loop-compact s ((pre ++ a.ip) ++ a.port) xs (addrs ++ (a ∷ [])) (j + 6) ws
                  (omega (arith, grown))
                  (split ∙ sym (append_assoc (pre ++ a.ip) a.port (compact xs)))
                  (omega
                    (arith, length-append (pre ++ a.ip) a.port, length-append pre a.ip, w.0, w.1)),
              append_assoc addrs (a ∷ []) xs,
              grown,
            )
            (ap (λ t. some (leb 50 t, take 50 (addrs ++ (a ∷ xs)))) (omega arith))
      | no h ↦
          rw
            (
              left,
              right,
              le→leb 50 (length (addrs ++ (a ∷ []))) (omega (arith, grown)),
              le→leb 50 (length addrs + suc (length xs)) (omega arith),
            )
            (ap (λ (t : List Address). some (true, t))
              (sym (take_first 50 (addrs ++ (a ∷ [])) xs (omega (arith, grown)))
                ∙ ap (take 50) (append_assoc addrs (a ∷ []) xs)))
    ]

-- an entry that is a number says nothing
read_entry-number :
    (key value : Span) (addrs : Addresses)
    → read_entry string key integer value addrs ≡ some (none, addrs)
unfolding read_entry
read_entry-number key value (v4, v6) = elim (Bool-cases (Span.eq peers_key key)) [
  | inl a ↦ elim (Bool-cases (Span.eq peers6_key key)) [
    | inl b ↦ rw (a, b) refl
    | inr b ↦ rw (a, b) refl
  ]
  | inr a ↦ elim (Bool-cases (Span.eq peers6_key key)) [
    | inl b ↦ rw (a, b) refl
    | inr b ↦ rw (a, b) refl
  ]
]

read_entry-peers :
    (xs : List Address)
    → All IsAddress xs
    → read_entry string peers_key string (compact xs) ([], [])
      ≡ some (if leb 50 (length xs) then some no_error else none, (take 50 xs, []))
unfolding read_entry Span.eq Span.memcmp_eq
read_entry-peers xs w =
    rw (eq→== (length (compact xs) % 6) 0 (omega (arith, length-compact xs w)), rounds, whole) refl
  where
    rounds : length (compact xs) / 6 ≡ length xs
    rounds = omega (arith, length-compact xs w)

    whole : peers_loop (compact xs) (length xs) 0 [] ≡ some (leb 50 (length xs), take 50 xs)
    whole =
        peers_loop-compact (compact xs) [] xs [] 0 w (omega arith) refl refl
        ∙ ap (λ t. some (leb 50 t, take 50 xs)) (omega arith)

-- An answer with an interval and the compact form of any number of addresses gives the addresses, in their
-- order, up to the 50th.
pub parse_peer_addresses-compact :
    (xs : List Address) (text key interval : Span) (sizes : List ℕ) (parent : ℕ)
    → All IsAddress xs
    → parse_peer_addresses
        (record {
          spans = text ∷ key ∷ interval ∷ peers_key ∷ compact xs ∷ [];
          lengths = 4 ∷ sizes;
          kinds = dictionary ∷ string ∷ integer ∷ string ∷ string ∷ [];
          parent = parent;
        })
        ([], [])
      ≡ some (no_error, (take 50 xs, []))
unfolding parse_peer_addresses read_entries
parse_peer_addresses-compact xs text key interval sizes parent w =
    elim (Bool-cases (leb 50 (length xs))) [
      | inl a ↦ rw (read_entry-number key interval ([], []), read_entry-peers xs w, a) refl
      | inr a ↦ rw (read_entry-number key interval ([], []), read_entry-peers xs w, a) refl
    ]
