-- ===== src/Torrent/Metainfo/Read.antt =====
-- Reading the metadata out of a torrent file that was parsed: `bc_parser_init_metainfo` of
-- torrent/bencode.h. `none` is an access outside of the arrays, or an overflow of an `int64_t`.
pub mod Places
pub mod Found
pub mod Loop
pub mod Accept
mod Tests
use c_fs_subscriber.Base
use c_fs_subscriber.Base.{
  ltb, leb, ◌==◌, if◌then◌else◌, length, get_elem?, ◌>>=◌, ◌>>◌, add64, ℕ, zero, suc, ◌+◌, ◌-◌, ◌%◌,
  ◌^◌, Bool, true, false, not, ◌&&◌, ◌||◌, Option, some, List, [], ◌∷◌,
}
use c_fs_subscriber.Pg.Span
use c_fs_subscriber.Pg.Span.{Span}
use c_fs_subscriber.Pg.Span.Signed.{parse_i64_decimal}
use c_fs_subscriber.Torrent.Bencode.{Kind, string, dictionary, integer, Parser}
use c_fs_subscriber.Torrent.Metainfo.{Metainfo, compute}

-- `BC_ME_INFO_NOT_FOUND` is never returned, and is left out.
pub data MetainfoError : Type 0 where
  no_error metainfo_not_dictionary announce_not_found piece_length_not_found
        piece_length_invalid_value name_not_found name_invalid_value length_not_found
        length_invalid_value pieces_not_found pieces_invalid_value :
      MetainfoError

abbrev pub announce_key : Span
announce_key = b'a' ∷ b'n' ∷ b'n' ∷ b'o' ∷ b'u' ∷ b'n' ∷ b'c' ∷ b'e' ∷ []

abbrev pub info_key : Span
info_key = b'i' ∷ b'n' ∷ b'f' ∷ b'o' ∷ []

abbrev pub piece_length_key : Span
piece_length_key =
    b'p' ∷ b'i' ∷ b'e' ∷ b'c' ∷ b'e' ∷ 32 ∷ b'l' ∷ b'e' ∷ b'n' ∷ b'g' ∷ b't' ∷ b'h' ∷ []

abbrev pub name_key : Span
name_key = b'n' ∷ b'a' ∷ b'm' ∷ b'e' ∷ []

abbrev pub length_key : Span
length_key = b'l' ∷ b'e' ∷ b'n' ∷ b'g' ∷ b't' ∷ b'h' ∷ []

abbrev pub pieces_key : Span
pieces_key = b'p' ∷ b'i' ∷ b'e' ∷ b'c' ∷ b'e' ∷ b's' ∷ []

-- The variables of the loop.
pub record Reading : Type 0 where
  pub metainfo : Metainfo
  pub info_span : Span
  pub in_info : Bool
  pub info_end : ℕ

-- An entry of the arrays.
pub record Entry : Type 0 where
  pub kind : Kind
  pub span : Span
  pub count : ℕ

abbrev pub is_string : Kind → Bool
is_string string = true
is_string _ = false

abbrev pub is_dictionary : Kind → Bool
is_dictionary dictionary = true
is_dictionary _ = false

abbrev pub is_integer : Kind → Bool
is_integer integer = true
is_integer _ = false

unfoldable pub entry : Parser → ℕ → Option Entry
entry p i = do
  kind ← get_elem? p.kinds i
  span ← get_elem? p.spans i
  count ← get_elem? p.lengths i
  some (record { kind = kind; span = span; count = count })

-- `kind == BC_KIND_STRING && pg_span_eq(key, span)`
unfoldable pub is_key : Span → Entry → Bool
is_key key e = is_string e.kind && Span.eq key e.span

-- the case of `piece length`
unfoldable pub read_piece_length : Reading → Entry → Option (MetainfoError × Reading)
read_piece_length r value = do
  (valid, negative, n) ← parse_i64_decimal value.span
  if not valid || (negative || (n == 0 || leb (2 ^ 32) n))
      then some (piece_length_invalid_value, r)
      else some (no_error, record r { metainfo = record r.metainfo { piece_length = n } })

-- the case of `length`
unfoldable pub read_length : Reading → Entry → Option (MetainfoError × Reading)
read_length r value = do
  (valid, negative, n) ← parse_i64_decimal value.span
  if not valid || (negative || n == 0)
      then some (length_invalid_value, r)
      else some (no_error, record r { metainfo = record r.metainfo { length = n } })

-- the case of `name`
unfoldable pub read_name : Reading → Entry → MetainfoError × Reading
read_name r value =
    if Base.length value.span == 0
    then (name_invalid_value, r)
    else (no_error, record r { metainfo = record r.metainfo { name = value.span } })

-- the case of `pieces`
unfoldable pub read_pieces : Reading → Entry → MetainfoError × Reading
read_pieces r value =
    if Base.length value.span == 0 || not (Base.length value.span % 20 == 0)
    then (pieces_invalid_value, r)
    else (no_error, record r { metainfo = record r.metainfo { pieces = value.span } })

-- `if (in_info && i > info_end) in_info = false`
unfoldable pub leave_info : ℕ → Reading → Reading
leave_info i r = record r { in_info = r.in_info && not (ltb r.info_end i) }

-- the cases of the loop, for the entries `i` and `i + 1`
unfoldable pub read_entry : ℕ → Reading → Entry → Entry → Option (MetainfoError × Reading)
read_entry i r key value =
    if is_key announce_key key && is_string value.kind
    then some (no_error, record r { metainfo = record r.metainfo { announce = value.span } })
    else if is_key info_key key && is_dictionary value.kind
    then some (
      no_error,
      record r { in_info = true; info_end = add64 i value.count; info_span = value.span },
    )
    else if r.in_info && (is_key piece_length_key key && is_integer value.kind)
    then read_piece_length r value
    else if r.in_info && (is_key name_key key && is_string value.kind)
    then some (read_name r value)
    else if r.in_info && (is_key length_key key && is_integer value.kind)
    then read_length r value
    else if r.in_info && (is_key pieces_key key && is_string value.kind)
    then some (read_pieces r value)
    else some (no_error, r)

abbrev pub is_failure : MetainfoError → Bool
is_failure no_error = false
is_failure _ = true

-- the loop, with the rounds that are left
unfoldable pub read_entries : Parser → ℕ → ℕ → Reading → Option (MetainfoError × Reading)
read_entries p zero i r = some (no_error, r)
read_entries p (suc n) i r = do
  key ← entry p i
  value ← entry p (i + 1)
  (err, r') ← read_entry i (leave_info i r) key value
  if is_failure err then some (err, r') else read_entries p n (i + 1) r'

-- the checks behind the loop
unfoldable pub check : Metainfo → MetainfoError
check m =
    if Base.length m.announce == 0
    then announce_not_found
    else if m.length == 0
    then length_not_found
    else if m.piece_length == 0
    then piece_length_not_found
    else if Base.length m.pieces == 0
    then pieces_not_found
    else if Base.length m.name == 0
    then name_not_found
    else no_error

-- The metadata as `main` declares them, which are all 0, and the `info_span` of `main`.
abbrev pub blank : Reading
blank = record {
  metainfo = record {
    announce = [];
    length = 0;
    name = [];
    pieces = [];
    piece_length = 0;
    pieces_count = 0;
    blocks_count = 0;
    blocks_per_piece = 0;
    last_piece_length = 0;
    last_piece_block_count = 0;
  };
  info_span = [];
  in_info = false;
  info_end = 0;
}

abbrev pub starts_dictionary : List Kind → Bool
starts_dictionary [] = false
starts_dictionary (k ∷ ks) = is_dictionary k

-- what follows the loop
unfoldable pub finish : MetainfoError × Reading → Option (MetainfoError × Metainfo × Span)
finish (err, r) =
    if is_failure err
    then some (err, r.metainfo, r.info_span)
    else if is_failure (check r.metainfo)
    then some (check r.metainfo, r.metainfo, r.info_span)
    else some (no_error, compute r.metainfo, r.info_span)

unfoldable pub init_metainfo : Parser → Option (MetainfoError × Metainfo × Span)
init_metainfo p =
    if not (starts_dictionary p.kinds)
    then some (metainfo_not_dictionary, blank.metainfo, [])
    else (read_entries p (Base.length p.kinds - 1 - 1) 1 blank >>= finish)
