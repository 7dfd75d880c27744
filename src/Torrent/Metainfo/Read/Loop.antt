-- ===== src/Torrent/Metainfo/Read/Loop.antt =====
-- The loop of `bc_parser_init_metainfo`: where the values that it has read come from.
use c_fs_subscriber.Base.{
  ltb, if◌then◌else◌, ltb→le, Bool-cases, Option-cases, ◌>>=◌, add64, ℕ, zero, suc, ◌+◌, ◌≤◌, ◌≡◌,
  refl, subst, inl, inr, true, false, not, ◌&&◌, Option, none, some, arith,
}
use c_fs_subscriber.Torrent.Bencode.{string, dictionary, Parser}
use c_fs_subscriber.Torrent.Metainfo.Read.{
  MetainfoError, Reading, Entry, entry, is_key, is_failure, announce_key, info_key, name_key,
  length_key, piece_length_key, pieces_key, is_string, is_dictionary, is_integer, read_entry,
  read_entries, leave_info,
}
use c_fs_subscriber.Torrent.Metainfo.Read.Places.{Opened, Inside, wider_scope}
use c_fs_subscriber.Torrent.Metainfo.Read.Found.{
  Found, Gives, follows, read_piece_length-Found, read_length-Found, read_name-Found,
  read_pieces-Found, is_string-eq, is_dictionary-eq, is_integer-eq, and_true,
}

module _ (p : Parser) (i : ℕ) (key value : Entry) (at : entry p i ≡ some key)
    (next : entry p (i + 1) ≡ some value) where
  announce-Found :
      (r : Reading)
      → Found p i r
      → is_key announce_key key ≡ true
      → value.kind ≡ string
      → Found p (i + 1) (record r { metainfo = record r.metainfo { announce = value.span } })
  announce-Found r f k e = record {
    announced = inr (follows p i key value at next announce_key string k e);
    named = f.named;
    hashed = f.hashed;
    counted = f.counted;
    split = f.split;
    informed = f.informed;
    scope = wider_scope f.scope;
  }

  info-Found :
      (r : Reading) (last : ℕ)
      → Found p i r
      → last ≡ add64 i value.count
      → is_key info_key key ≡ true
      → value.kind ≡ dictionary
      → Found p (i + 1) (record r { in_info = true; info_end = last; info_span = value.span })
  info-Found r last f l k e = record {
    announced = f.announced;
    named = f.named;
    hashed = f.hashed;
    counted = f.counted;
    split = f.split;
    informed = inr (follows p i key value at next info_key dictionary k e);
    scope = inr record {
      start = i;
      size = value.count;
      opens = record {
        name = key;
        value = value;
        at = at;
        next = next;
        names = k;
        is_kind = e;
        sized = refl;
      };
      behind = omega arith;
      ends = l;
    };
  }

  Found-next : (r : Reading) → Found p i r → Found p (i + 1) r
  Found-next r f = record {
    announced = f.announced;
    named = f.named;
    hashed = f.hashed;
    counted = f.counted;
    split = f.split;
    informed = f.informed;
    scope = wider_scope f.scope;
  }

  read_entry-Found :
      (r : Reading)
      → Found p i r
      → (r.in_info ≡ true → Inside p i)
      → Gives (Found p (i + 1)) (read_entry i r key value)
  unfolding read_entry
  read_entry-Found r f ins = elim (Bool-cases (is_key announce_key key && is_string value.kind)) [
    | inl a ↦
        let (k, e) = and_true a in rw a (λ h. announce-Found r f k (is_string-eq value.kind e))
    | inr a ↦ elim (Bool-cases (is_key info_key key && is_dictionary value.kind)) [
      | inl b ↦
          let (k, e) = and_true b in
          rw (a, b)
            (λ h. info-Found r (add64 i value.count) f refl k (is_dictionary-eq value.kind e))
      | inr b ↦
          elim (Bool-cases (r.in_info && (is_key piece_length_key key && is_integer value.kind))) [
            | inl c ↦
                let (k, e) = and_true (and_true c).1 in
                rw (a, b, c)
                  (read_piece_length-Found p i key value at next r f (ins (and_true c).0) k
                    (is_integer-eq value.kind e))
            | inr c ↦
                elim (Bool-cases (r.in_info && (is_key name_key key && is_string value.kind))) [
                  | inl d ↦
                      let (k, e) = and_true (and_true d).1 in
                      rw (a, b, c, d)
                        (read_name-Found p i key value at next r f (and_true d).0
                          (ins (and_true d).0) k (is_string-eq value.kind e))
                  | inr d ↦
                      elim (Bool-cases
                        (r.in_info && (is_key length_key key && is_integer value.kind))) [
                          | inl g ↦
                              let (k, e) = and_true (and_true g).1 in
                              rw (a, b, c, d, g)
                                (read_length-Found p i key value at next r f (ins (and_true g).0) k
                                  (is_integer-eq value.kind e))
                          | inr g ↦
                              elim (Bool-cases
                                (r.in_info && (is_key pieces_key key && is_string value.kind))) [
                                  | inl z ↦
                                      let (k, e) = and_true (and_true z).1 in
                                      rw (a, b, c, d, g, z)
                                        (read_pieces-Found p i key value at next r f
                                          (ins (and_true z).0) k (is_string-eq value.kind e))
                                  | inr z ↦ rw (a, b, c, d, g, z) (λ h. Found-next r f)
                                ]
                        ]
                ]
          ]
    ]
  ]

leave_info-Found : (p : Parser) (i : ℕ) (r : Reading) → Found p i r → Found p i (leave_info i r)
unfolding leave_info
leave_info-Found p i r f = record {
  announced = f.announced;
  named = f.named;
  hashed = f.hashed;
  counted = f.counted;
  split = f.split;
  informed = elim f.informed [ inl (out, none_yet) ↦ inl (rw out refl, none_yet) | inr x ↦ inr x ];
  scope = elim f.scope [ inl out ↦ inl (rw out refl) | inr x ↦ inr x ];
}

Opened-Inside : {p : Parser} {i last : ℕ} → Opened p i last → ltb last i ≡ false → Inside p i
Opened-Inside {p} {i} {last} o b = record {
  start = o.start;
  size = o.size;
  opens = o.opens;
  behind = o.behind;
  before_end = subst (λ n. i ≤ n) o.ends (ltb→le last i b);
}

-- Where the loop is still in the `info` after `leave_info`, the entry is inside of it.
leave_info-Inside :
    (p : Parser) (i : ℕ) (r : Reading) → Found p i r → (leave_info i r).in_info ≡ true → Inside p i
unfolding leave_info
leave_info-Inside p i r f h =
    let (here, not_over) = and_true {a = r.in_info} {b = not (ltb r.info_end i)} h in
    elim f.scope [ inl out ↦ cc | inr o ↦ Opened-Inside o (ground (arith, not_over)) ]

-- the loop goes on where there is no failure
next-Gives :
    (P Q : Reading → Type 0) (o : Option (MetainfoError × Reading))
    (go : Reading → Option (MetainfoError × Reading))
    → Gives P o
    → ((r : Reading) → P r → Gives Q (go r))
    → Gives Q (o >>= λ (err, r). if is_failure err then some (err, r) else go r)
next-Gives P Q none go g h = tt
next-Gives P Q (some (err, r)) go g h = elim (Bool-cases (is_failure err)) [
  | inl bad ↦ rw bad (λ z. cc)
  | inr good ↦ rw good (h r (g good))
]

pub read_entries-Found :
    (p : Parser) (n i : ℕ) (r : Reading)
    → Found p i r
    → Gives (Found p (i + n)) (read_entries p n i r)
unfolding read_entries
read_entries-Found p zero i r f =
    let e : i ≡ i + 0 = omega arith in λ h. subst (λ k. Found p k r) e f
read_entries-Found p (suc n) i r f = elim (Option-cases (entry p i)) [
  | inl a ↦ rw a tt
  | inr (key, a) ↦ elim (Option-cases (entry p (i + 1))) [
    | inl b ↦ rw (a, b) tt
    | inr (value, b) ↦
        rw (a, b)
          (next-Gives (Found p (i + 1)) (Found p (i + suc n))
            (read_entry i (leave_info i r) key value) (λ r'. read_entries p n (i + 1) r')
            (read_entry-Found p i key value a b (leave_info i r) (leave_info-Found p i r f)
              (leave_info-Inside p i r f))
            (λ r' f'.
              let e : i + 1 + n ≡ i + suc n = omega arith in
              subst (λ k. Gives (Found p k) (read_entries p n (i + 1) r')) e
                (read_entries-Found p n (i + 1) r' f')))
  ]
]
