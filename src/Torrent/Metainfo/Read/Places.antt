-- ===== src/Torrent/Metainfo/Read/Places.antt =====
-- Where an entry of a torrent file stands: behind its key, and inside of an `info` dictionary.
use c_fs_subscriber.Base.{
  add64, ℕ, ◌+◌, ◌≤◌, ◌<◌, ◌≡◌, ◌⊎◌, inl, inr, Bool, true, false, some, arith,
}
use c_fs_subscriber.Torrent.Bencode.{Kind, dictionary, integer, Parser}
use c_fs_subscriber.Pg.Span.{Span}
use c_fs_subscriber.Pg.Span.Shows.{Shows}
use c_fs_subscriber.Torrent.Metainfo.Read.{Entry, entry, is_key, info_key}

-- A string with the text of the key is an entry of the arrays, and the next entry has this kind and text.
pub record Follows (p : Parser) (key : Span) (kind : Kind) (text : Span) : Type 0 where
  pub i : ℕ
  pub name : Entry
  pub value : Entry
  pub at : entry p i ≡ some name
  pub next : entry p (i + 1) ≡ some value
  pub names : is_key key name ≡ true
  pub is_kind : value.kind ≡ kind
  pub shows : value.span ≡ text

-- Entry `i` is the key `info`, and the next is a dictionary of `size` entries.
pub record IsInfo (p : Parser) (i size : ℕ) : Type 0 where
  pub name : Entry
  pub value : Entry
  pub at : entry p i ≡ some name
  pub next : entry p (i + 1) ≡ some value
  pub names : is_key info_key name ≡ true
  pub is_kind : value.kind ≡ dictionary
  pub sized : value.count ≡ size

-- Entry `i` is a key of an `info` dictionary, whose own key is an entry before it: it is at most as many
-- entries behind that as the dictionary has.
pub record Inside (p : Parser) (i : ℕ) : Type 0 where
  pub start : ℕ
  pub size : ℕ
  pub opens : IsInfo p start size
  pub behind : start < i
  pub before_end : i ≤ add64 start size

-- an `info` before entry `i` whose last key is at `last`
pub record Opened (p : Parser) (i last : ℕ) : Type 0 where
  pub start : ℕ
  pub size : ℕ
  pub opens : IsInfo p start size
  pub behind : start < i
  pub ends : last ≡ add64 start size

-- A key of an `info` dictionary, and the value behind it.
abbrev pub Within : Parser → Span → Kind → Span → Type 0
Within p key kind text = (f : Follows p key kind text) × Inside p f.i

-- the text behind the key shows the number `n`
abbrev pub Counts : Parser → Span → ℕ → Type 0
Counts p key n = (text : Span) × Within p key integer text × Shows text n

-- the next round
pub wider : {p : Parser} {i last : ℕ} → Opened p i last → Opened p (i + 1) last
wider o = record {
  start = o.start;
  size = o.size;
  opens = o.opens;
  behind = omega (arith, o.behind);
  ends = o.ends;
}

pub wider_scope :
    {p : Parser} {i last : ℕ} {b : Bool}
    → (b ≡ false) ⊎ Opened p i last
    → (b ≡ false) ⊎ Opened p (i + 1) last
wider_scope (inl e) = inl e
wider_scope (inr o) = inr (wider o)
