-- ===== src/Torrent/Peer/Fields.antt =====
-- Fields of a message, read from a ring at a length that is tested before.
use c_fs_subscriber.Base.{
  length, get_or, drop, All, get_elem?-eq-get_or, All-get_or, ℕ, ◌^◌, ◌≤◌, ◌<◌, ◌≡◌, refl, ◌∙◌,
  some, List, [], ◌∷◌, arith,
}
use c_fs_subscriber.Pg.Ring.{Ring, get}
use c_fs_subscriber.Torrent.Peer.Wire.{ntohl, read_u32, peek_read_u32}
use c_fs_subscriber.Torrent.Peer.Wire.Holds.{
  Holds, Reads, read_u32-Reads, peek_read_u32-Holds, get-Holds,
}

abbrev pub word : List ℕ → ℕ
word bs = ntohl (get_or bs 0 0) (get_or bs 1 0) (get_or bs 2 0) (get_or bs 3 0)

pub four :
    (bs : List ℕ)
    → 4 ≤ length bs
    → bs ≡ get_or bs 0 0 ∷ get_or bs 1 0 ∷ get_or bs 2 0 ∷ get_or bs 3 0 ∷ drop 4 bs
four [] h = absurd (omega arith)
four (a ∷ []) h = absurd (omega arith)
four (a ∷ b ∷ []) h = absurd (omega arith)
four (a ∷ b ∷ c ∷ []) h = absurd (omega arith)
four (a ∷ b ∷ c ∷ d ∷ bs) h = refl

pub word-Reads :
    {r : Ring} (bs : List ℕ)
    → Holds r bs
    → 4 ≤ length bs
    → Reads r.cap (read_u32 r) (word bs) (drop 4 bs)
word-Reads {r} bs h l =
    read_u32-Reads (get_or bs 0 0) (get_or bs 1 0) (get_or bs 2 0) (get_or bs 3 0) (drop 4 bs)
      (record { valid = h.valid; bytes = h.bytes ∙ four bs l })

pub peek-word :
    {r : Ring} (bs : List ℕ) → Holds r bs → 4 ≤ length bs → peek_read_u32 r ≡ some (word bs)
peek-word {r} bs h l =
    peek_read_u32-Holds (get_or bs 0 0) (get_or bs 1 0) (get_or bs 2 0) (get_or bs 3 0) (drop 4 bs)
      (record { valid = h.valid; bytes = h.bytes ∙ four bs l })

pub tag-Holds :
    {r : Ring} (bs : List ℕ) → Holds r bs → 5 ≤ length bs → get r 4 ≡ some (get_or bs 4 0)
tag-Holds bs h l = get-Holds 4 (get_or bs 4 0) bs h (get_elem?-eq-get_or bs 4 0 l)

pub word-lt : (bs : List ℕ) → All (λ b. b < 256) bs → word bs < 2 ^ 32
word-lt bs h =
    let at = λ (i : ℕ). All-get_or (λ b. b < 256) bs i 0 (omega arith) h in
    omega (arith, at 0, at 1, at 2, at 3)
