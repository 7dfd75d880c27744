-- ===== src/Torrent/Peer/Wire/Holds.antt =====
-- The reads of a peer on a ring, by the bytes that it holds.
use c_fs_subscriber.Base.{
  le→leb, length, get_elem?, take, drop, ℕ, zero, suc, ◌≤◌, ◌<◌, ◌≡◌, refl, sym, ap, ◌∙◌, Option,
  none, some, List, [], ◌∷◌, arith,
}
use c_fs_subscriber.Pg.Ring.{Ring, pop_front, consume_front, get}
use c_fs_subscriber.Pg.Ring.Abstract
use c_fs_subscriber.Pg.Ring.Deque.{
  contents, length-contents, view_second, view, pop_front_refines, consume_front_refines,
  get_refines,
}
use c_fs_subscriber.Pg.Ring.Valid.{
  IsValid, pop_front-KeepsSecond, KeepsSecond, consume_front-Keeps, Keeps,
}
use c_fs_subscriber.Torrent.Peer.Wire.{ntohl, read_u32, peek_read_u32, pop_many}

-- A valid ring that holds `bs`, oldest first.
pub record Holds (r : Ring) (bs : List ℕ) : Type 0 where
  pub valid : IsValid r
  pub bytes : contents r ≡ bs

module _ {r : Ring} {bs : List ℕ} (h : Holds r bs) where
  pub Holds-len : r.len ≡ length bs
  Holds-len = sym (length-contents r) ∙ ap length h.bytes

-- A read that gives `a` and leaves a ring of capacity `m` that holds `bs`.
abbrev pub Reads {ℓ} : {A : Type ℓ} → ℕ → Option (A × Ring) → A → List ℕ → Type ℓ
Reads m o a bs = (r' : Ring) × (o ≡ some (a, r')) × Holds r' bs × (r'.cap ≡ m)

taken :
    (m : ℕ) (o : Option (ℕ × Ring)) (x : ℕ) (bs : List ℕ)
    → KeepsSecond m o
    → view_second o ≡ some (x, bs)
    → Reads m o x bs
taken m none x bs k e = cc
taken m (some (y, r')) x bs k e = (r', cc, record { valid = k.0; bytes = cc }, k.1)

pub pop_front-Reads :
    {r : Ring} (x : ℕ) (bs : List ℕ) → Holds r (x ∷ bs) → Reads r.cap (pop_front r) x bs
pop_front-Reads {r} x bs h =
    taken r.cap (pop_front r) x bs (pop_front-KeepsSecond h.valid) (
      pop_front_refines h.valid ∙ ap Abstract.pop_front h.bytes ∙ unfold Abstract.pop_front in refl)

skipped :
    (m : ℕ) (o : Option Ring) (bs : List ℕ)
    → Keeps m o
    → view o ≡ some bs
    → (r' : Ring) × (o ≡ some r') × Holds r' bs × (r'.cap ≡ m)
skipped m none bs k e = cc
skipped m (some r') bs k e = (r', refl, record { valid = k.0; bytes = cc }, k.1)

pub consume_front-Holds :
    {r : Ring} (n : ℕ) (bs : List ℕ)
    → Holds r bs
    → n ≤ length bs
    → (r' : Ring) × (consume_front r n ≡ some r') × Holds r' (drop n bs) × (r'.cap ≡ r.cap)
consume_front-Holds {r} n bs h l =
    skipped r.cap (consume_front r n) (drop n bs) (consume_front-Keeps n h.valid) (
      consume_front_refines n h.valid
      ∙ ap (λ q. Abstract.consume_front q n) h.bytes
      ∙ unfold Abstract.consume_front in rw (le→leb n (length bs) l) refl)

get_elem?-lt : (bs : List ℕ) (i x : ℕ) → get_elem? bs i ≡ some x → i < length bs
get_elem?-lt [] i x e = cc
get_elem?-lt (b ∷ bs) zero x e = omega arith
get_elem?-lt (b ∷ bs) (suc i) x e = omega (arith, get_elem?-lt bs i x e)

pub get-Holds :
    {r : Ring} (i x : ℕ) (bs : List ℕ) → Holds r bs → get_elem? bs i ≡ some x → get r i ≡ some x
get-Holds {r} i x bs h e =
    get_refines i h.valid (omega (arith, Holds-len h, get_elem?-lt bs i x e))
    ∙ ap (λ q. get_elem? q i) h.bytes
    ∙ e

pub pop_many-Reads :
    (n : ℕ) (bs : List ℕ) {r : Ring}
    → Holds r bs
    → n ≤ length bs
    → Reads r.cap (pop_many n r) (take n bs) (drop n bs)
unfolding pop_many
pop_many-Reads zero bs {r} h l = (r, refl, h, refl)
pop_many-Reads (suc n) [] h l = absurd (omega arith)
pop_many-Reads (suc n) (x ∷ bs) {r} h l =
    let (r', e, h', c) = pop_front-Reads x bs h in
    let (r'', e', h'', c') = pop_many-Reads n bs {r = r'} h' (omega arith) in
    (r'', rw (e, e') refl, h'', c' ∙ c)

pub read_u32-Reads :
    {r : Ring} (a b c d : ℕ) (bs : List ℕ)
    → Holds r (a ∷ b ∷ c ∷ d ∷ bs)
    → Reads r.cap (read_u32 r) (ntohl a b c d) bs
unfolding read_u32
read_u32-Reads {r} a b c d bs h =
    let (r1, e1, h1, c1) = pop_front-Reads a (b ∷ c ∷ d ∷ bs) h in
    let (r2, e2, h2, c2) = pop_front-Reads b (c ∷ d ∷ bs) h1 in
    let (r3, e3, h3, c3) = pop_front-Reads c (d ∷ bs) h2 in
    let (r4, e4, h4, c4) = pop_front-Reads d bs h3 in
    (
      r4,
      rw (le→leb 4 r.len (omega (arith, Holds-len h)), e1, e2, e3, e4) refl,
      h4,
      c4 ∙ c3 ∙ c2 ∙ c1,
    )

pub peek_read_u32-Holds :
    {r : Ring} (a b c d : ℕ) (bs : List ℕ)
    → Holds r (a ∷ b ∷ c ∷ d ∷ bs)
    → peek_read_u32 r ≡ some (ntohl a b c d)
unfolding peek_read_u32
peek_read_u32-Holds {r} a b c d bs h =
    let all = a ∷ b ∷ c ∷ d ∷ bs in
    rw
      (
        le→leb 4 r.len (omega (arith, Holds-len h)),
        get-Holds 0 a all h refl,
        get-Holds 1 b all h refl,
        get-Holds 2 c all h refl,
        get-Holds 3 d all h refl,
      )
      refl
