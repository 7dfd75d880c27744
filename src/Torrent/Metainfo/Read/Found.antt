-- ===== src/Torrent/Metainfo/Read/Found.antt =====
-- The values that `bc_parser_init_metainfo` reads, and where they come from.

use c_fs_subscriber.Base.{
  leb, ◌==◌, Bool-cases, Option-cases, length, ℕ, ◌+◌, ◌%◌, ◌^◌, ◌<◌, ◌≡◌, refl, ◌⊎◌, inl, inr,
  Bool, true, false, not, ◌&&◌, ◌||◌, Option, none, some, [], arith,
}
use c_fs_subscriber.Torrent.Bencode.{Kind, string, dictionary, integer, Parser}
use c_fs_subscriber.Pg.Span.{Span}
use c_fs_subscriber.Pg.Span.Shows.{parse_i64_decimal-Shows}
use c_fs_subscriber.Pg.Span.Signed.{parse_i64_decimal}
use c_fs_subscriber.Torrent.Metainfo.Read.Places.{
  Follows, Inside, Opened, Within, Counts, wider_scope,
}
use c_fs_subscriber.Torrent.Metainfo.Read.{
  MetainfoError, Reading, Entry, entry, is_key, is_failure, announce_key, info_key, name_key,
  length_key, piece_length_key, pieces_key, read_piece_length, read_length, read_name, read_pieces,
  is_string, is_dictionary, is_integer,
}

pub is_string-eq : (k : Kind) → is_string k ≡ true → k ≡ string
is_string-eq string h = refl
is_string-eq k h = cc

pub is_dictionary-eq : (k : Kind) → is_dictionary k ≡ true → k ≡ dictionary
is_dictionary-eq dictionary h = refl
is_dictionary-eq k h = cc

pub is_integer-eq : (k : Kind) → is_integer k ≡ true → k ≡ integer
is_integer-eq integer h = refl
is_integer-eq k h = cc

pub and_true : {a b : Bool} → (a && b) ≡ true → (a ≡ true) × (b ≡ true)
and_true {a = true} h = (refl, h)
and_true {a = false} h = cc

-- What holds of the variables of the loop before the round of entry `i`.
pub record Found (p : Parser) (i : ℕ) (r : Reading) : Type 0 where
  pub announced : (r.metainfo.announce ≡ []) ⊎ Follows p announce_key string r.metainfo.announce
  pub named : (r.metainfo.name ≡ []) ⊎ Within p name_key string r.metainfo.name
  pub hashed :
      (r.metainfo.pieces ≡ [])
      ⊎ (Within p pieces_key string r.metainfo.pieces × (length r.metainfo.pieces % 20 ≡ 0))
  pub counted : (r.metainfo.length ≡ 0) ⊎ Counts p length_key r.metainfo.length
  pub split :
      (r.metainfo.piece_length ≡ 0)
      ⊎ (Counts p piece_length_key r.metainfo.piece_length × (r.metainfo.piece_length < 2 ^ 32))
  pub informed :
      ((r.in_info ≡ false) × (r.metainfo.name ≡ [])) ⊎ Follows p info_key dictionary r.info_span
  pub scope : (r.in_info ≡ false) ⊎ Opened p i r.info_end

-- a result that is no failure has the property
abbrev pub Gives : (Reading → Type 0) → Option (MetainfoError × Reading) → Type 0
Gives P none = Unit
Gives P (some (err, r)) = is_failure err ≡ false → P r

module _ (p : Parser) (i : ℕ) (key value : Entry) (at : entry p i ≡ some key)
    (next : entry p (i + 1) ≡ some value) where
  pub follows :
      (name : Span) (kind : Kind)
      → is_key name key ≡ true
      → value.kind ≡ kind
      → Follows p name kind value.span
  follows name kind k e = record {
    i = i;
    name = key;
    value = value;
    at = at;
    next = next;
    names = k;
    is_kind = e;
    shows = refl;
  }

  follows-Within :
      (name : Span) (kind : Kind)
      → is_key name key ≡ true
      → value.kind ≡ kind
      → Inside p i
      → Within p name kind value.span
  unfolding follows
  follows-Within name kind k e h = (follows name kind k e, h)

  pub read_piece_length-Found :
      (r : Reading)
      → Found p i r
      → Inside p i
      → is_key piece_length_key key ≡ true
      → value.kind ≡ integer
      → Gives (Found p (i + 1)) (read_piece_length r value)
  unfolding read_piece_length
  read_piece_length-Found r f within k e = elim (Option-cases (parse_i64_decimal value.span)) [
    | inl z ↦ rw z tt
    | inr ((false, negative, n), z) ↦ rw z (λ h. cc)
    | inr ((true, true, n), z) ↦ rw z (λ h. cc)
    | inr ((true, false, n), z) ↦ elim (Bool-cases (n == 0 || leb (2 ^ 32) n)) [
      | inl bad ↦ rw (z, bad) (λ h. cc)
      | inr good ↦
          rw (z, good)
            (λ h. record {
              announced = f.announced;
              named = f.named;
              hashed = f.hashed;
              counted = f.counted;
              split = inr (
                (
                  value.span,
                  follows-Within piece_length_key integer k e within,
                  parse_i64_decimal-Shows value.span n z,
                ),
                ground arith,
              );
              informed = f.informed;
              scope = wider_scope f.scope;
            })
    ]
  ]

  pub read_length-Found :
      (r : Reading)
      → Found p i r
      → Inside p i
      → is_key length_key key ≡ true
      → value.kind ≡ integer
      → Gives (Found p (i + 1)) (read_length r value)
  unfolding read_length
  read_length-Found r f within k e = elim (Option-cases (parse_i64_decimal value.span)) [
    | inl z ↦ rw z tt
    | inr ((false, negative, n), z) ↦ rw z (λ h. cc)
    | inr ((true, true, n), z) ↦ rw z (λ h. cc)
    | inr ((true, false, n), z) ↦ elim (Bool-cases (n == 0)) [
      | inl bad ↦ rw (z, bad) (λ h. cc)
      | inr good ↦
          rw (z, good)
            (λ h. record {
              announced = f.announced;
              named = f.named;
              hashed = f.hashed;
              counted = inr (
                value.span,
                follows-Within length_key integer k e within,
                parse_i64_decimal-Shows value.span n z,
              );
              split = f.split;
              informed = f.informed;
              scope = wider_scope f.scope;
            })
    ]
  ]

  -- `name` counts only inside of an `info`, whose text is then known
  pub read_name-Found :
      (r : Reading)
      → Found p i r
      → r.in_info ≡ true
      → Inside p i
      → is_key name_key key ≡ true
      → value.kind ≡ string
      → Gives (Found p (i + 1)) (some (read_name r value))
  unfolding read_name
  read_name-Found r f inside within k e = elim (Bool-cases (length value.span == 0)) [
    | inl bad ↦ rw bad (λ h. cc)
    | inr good ↦ rw good (λ h. record {
      announced = f.announced;
      named = inr (follows-Within name_key string k e within);
      hashed = f.hashed;
      counted = f.counted;
      split = f.split;
      informed = elim f.informed [ inl (out, _) ↦ cc | inr x ↦ inr x ];
      scope = wider_scope f.scope;
    })
  ]

  pub read_pieces-Found :
      (r : Reading)
      → Found p i r
      → Inside p i
      → is_key pieces_key key ≡ true
      → value.kind ≡ string
      → Gives (Found p (i + 1)) (some (read_pieces r value))
  unfolding read_pieces
  read_pieces-Found r f within k e =
      elim (Bool-cases (length value.span == 0 || not (length value.span % 20 == 0))) [
        | inl bad ↦ rw bad (λ h. cc)
        | inr good ↦ rw good (λ h. record {
          announced = f.announced;
          named = f.named;
          hashed = inr (follows-Within pieces_key string k e within, ground arith);
          counted = f.counted;
          split = f.split;
          informed = f.informed;
          scope = wider_scope f.scope;
        })
      ]
