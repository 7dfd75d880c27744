-- ===== src/Torrent/Metainfo/Read/Accept.antt =====
-- What is known of a torrent file that `bc_parser_init_metainfo` accepts.
use c_fs_subscriber.Torrent.Metainfo.{Metainfo, compute}
use c_fs_subscriber.Base.{
  ◌==◌, if◌then◌else◌, Bool-cases, length, ◌>>=◌, ℕ, ◌+◌, ◌-◌, ◌*◌, ◌/◌, ◌%◌, ◌^◌, ◌≤◌, ◌<◌, ◌≡◌,
  refl, sym, ap, ◌∙◌, subst, ◌≢◌, ◌⊎◌, inl, inr, Bool, true, false, not, Option, none, some, [],
  arith,
}
use c_fs_subscriber.Torrent.Bencode.{string, dictionary, Parser}
use c_fs_subscriber.Pg.Span.{Span}
use c_fs_subscriber.Torrent.Metainfo.Read.{
  MetainfoError, Reading, is_failure, announce_key, info_key, name_key, length_key,
  piece_length_key, pieces_key, read_entries, check, blank, init_metainfo, no_error,
  starts_dictionary, finish, metainfo_not_dictionary,
}
use c_fs_subscriber.Torrent.Metainfo.{ceil_blocks}
use c_fs_subscriber.Torrent.Metainfo.Sound.{IsSound, IsWellFormed, compute-IsSound}
use c_fs_subscriber.Torrent.Metainfo.Read.Places.{Follows, Within, Counts}
use c_fs_subscriber.Torrent.Metainfo.Read.Found.{Found, Gives}
use c_fs_subscriber.Torrent.Metainfo.Read.Loop.{read_entries-Found}

-- What `bc_parser_init_metainfo` promises of the metadata that it accepts.
pub record Accepted (p : Parser) (m : Metainfo) (info : Span) : Type 0 where
  pub announced : Follows p announce_key string m.announce × (0 < length m.announce)
  pub named : Within p name_key string m.name × (0 < length m.name)
  pub hashed : Within p pieces_key string m.pieces
  pub hashes : (0 < length m.pieces) × (length m.pieces % 20 ≡ 0)
  pub counted : Counts p length_key m.length × (0 < m.length)
  pub split : Counts p piece_length_key m.piece_length
  pub piece_bounds : (0 < m.piece_length) × (m.piece_length < 2 ^ 32)
  pub informed : Follows p info_key dictionary info
  pub computed : compute m ≡ m

-- a check that passes, of a chain
passes :
    {b : Bool} (e x : MetainfoError)
    → is_failure e ≡ true
    → is_failure (if b then e else x) ≡ false
    → (b ≡ false) × (is_failure x ≡ false)
passes {b = true} e x f h = cc
passes {b = false} e x f h = (refl, h)

positive : (n : ℕ) → (n == 0) ≡ false → 0 < n
positive n h = ground arith

-- the checks behind the loop
check_lem :
    (m : Metainfo)
    → is_failure (check m) ≡ false
    → (0 < length m.announce)
      × (0 < m.length)
      × (0 < m.piece_length)
      × (0 < length m.pieces)
      × (0 < length m.name)
unfolding check
check_lem m h =
    let (a, h1) = passes _ _ refl h in
    let (b, h2) = passes _ _ refl h1 in
    let (c, h3) = passes _ _ refl h2 in
    let (d, h4) = passes _ _ refl h3 in
    let (e, h5) = passes _ _ refl h4 in
    (
      positive (length m.announce) a,
      positive m.length b,
      positive m.piece_length c,
      positive (length m.pieces) d,
      positive (length m.name) e,
    )

known_text : {B : Type 0} {xs : Span} → (xs ≡ []) ⊎ B → 0 < length xs → B
known_text (inr b) l = b
known_text (inl e) l = absurd (omega (arith, ap length e))

known_number : {B : Type 0} {n : ℕ} → (n ≡ 0) ⊎ B → 0 < n → B
known_number (inr b) l = b
known_number (inl e) l = absurd (omega arith)

known_info : {B : Type 0} {b : Bool} {xs : Span} → ((b ≡ false) × (xs ≡ [])) ⊎ B → 0 < length xs → B
known_info (inr b) l = b
known_info (inl (_, e)) l = absurd (omega (arith, ap length e))

blank-Found : (p : Parser) → Found p 1 blank
blank-Found p = record {
  announced = inl refl;
  named = inl refl;
  hashed = inl refl;
  counted = inl refl;
  split = inl refl;
  informed = inl (refl, refl);
  scope = inl refl;
}

accept :
    (p : Parser) (i : ℕ) (r : Reading)
    → Found p i r
    → is_failure (check r.metainfo) ≡ false
    → Accepted p (compute r.metainfo) r.info_span
unfolding compute
accept p i r f good =
    let (announce, file, piece, pieces, name) = check_lem r.metainfo good in
    record {
      announced = (known_text f.announced announce, announce);
      named = (known_text f.named name, name);
      hashed = (known_text f.hashed pieces).0;
      hashes = (pieces, (known_text f.hashed pieces).1);
      counted = (known_number f.counted file, file);
      split = (known_number f.split piece).0;
      piece_bounds = (piece, (known_number f.split piece).1);
      informed = known_info f.informed name;
      computed = refl;
    }

if_true : {A : Type 0} {b : Bool} (x y : A) → b ≡ true → (if b then x else y) ≡ x
if_true x y h = rw h refl

if_false : {A : Type 0} {b : Bool} (x y : A) → b ≡ false → (if b then x else y) ≡ y
if_false x y h = rw h refl

no_failure : {err : MetainfoError} → is_failure err ≡ true → err ≢ no_error
no_failure h e = cc

abbrev Told : Type 0
Told = MetainfoError × Metainfo × Span

same :
    {e : MetainfoError} {m m' : Metainfo} {i i' : Span}
    → ◌≡◌ {A = Option Told} (some (e, m, i)) (some (e, m', i'))
    → (m ≡ m') × (i ≡ i')
same h = (cc, cc)

same_error :
    {a b : MetainfoError} (m m' : Metainfo) (i i' : Span)
    → ◌≡◌ {A = Option Told} (some (a, m, i)) (some (b, m', i'))
    → a ≡ b
same_error m m' i i' h = cc

-- the result of the loop and the checks
Gives-Accepted :
    (p : Parser) (i : ℕ) (m : Metainfo) (info : Span) (o : Option (MetainfoError × Reading))
    → Gives (Found p i) o
    → (o >>= finish) ≡ some (no_error, m, info)
    → Accepted p m info
unfolding finish
Gives-Accepted p i m info none g h = cc
Gives-Accepted p i m info (some (err, r)) g h = elim (Bool-cases (is_failure err)) [
  | inl bad ↦ absurd (no_failure bad (same_error _ _ _ _ (sym (if_true _ _ bad) ∙ h)))
  | inr good ↦ elim (Bool-cases (is_failure (check r.metainfo))) [
    | inl bad ↦
        absurd (no_failure bad (same_error _ _ _ _ (sym (if_false _ _ good ∙ if_true _ _ bad) ∙ h)))
    | inr fine ↦
        let e = same (sym (if_false _ _ good ∙ if_false _ _ fine) ∙ h) in
        rw (e.0, e.1) at (accept p i r (g good) fine)
  ]
]

refused : metainfo_not_dictionary ≢ no_error
refused e = cc

-- Where `bc_parser_init_metainfo` reports no error: each value of the metadata, and the text of the
-- `info` dictionary, is the value of the entry behind a string with the text of its key. The keys of the
-- name, the hashes and the two lengths are inside of an `info` dictionary: its key is before theirs, by at
-- most as many entries as the parser counts in it. The two lengths are the numbers, over the integers,
-- that the decimal digits of the texts write, perhaps behind a plus, between spaces. The
-- tracker and the name are not empty, the length of the file and of a piece are positive and that of
-- a piece is below 2^32, and there is at least one hash and a whole number of them. The other fields
-- are those that `compute` gives.
pub init_metainfo-Accepted :
    (p : Parser) (m : Metainfo) (info : Span)
    → init_metainfo p ≡ some (no_error, m, info)
    → Accepted p m info
unfolding init_metainfo
init_metainfo-Accepted p m info h = elim (Bool-cases (starts_dictionary p.kinds)) [
  | inl a ↦
      Gives-Accepted p (1 + (length p.kinds - 1 - 1)) m info
        (read_entries p (length p.kinds - 1 - 1) 1 blank)
        (read_entries-Found p (length p.kinds - 1 - 1) 1 blank (blank-Found p))
        (sym (if_false _ _ (ap not a)) ∙ h)
  | inr a ↦ absurd (refused (same_error _ _ _ _ (sym (if_true _ _ (ap not a)) ∙ h)))
]

-- Where `bc_parser_init_metainfo` reports no error, and the file says what it does not check (the length of
-- a piece is a whole number of blocks, the pieces cover the length of the file, the last one in part, and
-- the numbers of hashes and of blocks are below 2^32), the values of the metadata fit together.
pub init_metainfo-IsSound :
    (p : Parser) (m : Metainfo) (info : Span)
    → init_metainfo p ≡ some (no_error, m, info)
    → m.piece_length % 16384 ≡ 0
    → (length m.pieces / 20 - 1) * m.piece_length < m.length
    → m.length ≤ (length m.pieces / 20 - 1) * m.piece_length + m.piece_length
    → length m.pieces / 20 < 2 ^ 32
    → ceil_blocks m.length < 2 ^ 32
    → IsSound m
init_metainfo-IsSound p m info h whole before covered hashes blocks =
    let a = init_metainfo-Accepted p m info h in
    let w : IsWellFormed m = record {
      piece_pos = a.piece_bounds.0;
      whole_blocks = whole;
      piece_small = a.piece_bounds.1;
      hashes = omega (arith, a.hashes.0, a.hashes.1);
      hashes_small = hashes;
      before_last = before;
      all_covered = covered;
      blocks_small = blocks;
    } in
    subst IsSound a.computed (compute-IsSound w)
