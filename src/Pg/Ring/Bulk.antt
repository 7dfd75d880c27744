-- ===== src/Pg/Ring/Bulk.antt =====
-- `pg_ring_push_backv`, which copies in two blocks, against one push for each byte.
use native.Mathlib.Nat.{mod_self, mod-add-mod, mod-eq_of_lt, mod-lt}
use c_fs_subscriber.Base.{
  le→ltb, length, set, take, drop, take_all, drop_all, ◌>>=◌, add64, sub64, ℕ, zero, suc, ◌+◌, ◌%◌,
  ◌^◌, ◌≤◌, ◌<◌, ◌≡◌, refl, sym, ap, ap₂, ◌∙◌, ◌⊎◌, inl, inr, Option, none, some, List, [], ◌∷◌,
  ◌++◌, append-nil, append_assoc, arith, dec_lt,
}
use c_fs_subscriber.Pg.Ring.{Ring, back_slot, memcpy, tail_count, push_back, push_backv}
use c_fs_subscriber.Pg.Ring.Abstract
use c_fs_subscriber.Pg.Ring.Deque.{contents, view, length-contents, push_back_refines}
use c_fs_subscriber.Pg.Ring.Valid.{IsValid, Keeps, push_back-Keeps}

-- One push for each byte, in order.
pub push_each : Ring → List ℕ → Option Ring
push_each r [] = some r
push_each r (x ∷ xs) = push_back r x >>= λ r'. push_each r' xs

-- The two blocks that are copied for `src` at index `i` of a buffer of `m` bytes.
copy : List ℕ → ℕ → ℕ → List ℕ → List ℕ
copy buf m i src =
    let n = tail_count m i (length src) in memcpy (memcpy buf i (take n src)) 0 (drop n src)

copy-nil : (buf : List ℕ) (m i : ℕ) → i < m → m ≤ 2 ^ 63 → copy buf m i [] ≡ buf
unfolding copy memcpy tail_count
copy-nil buf m i p q = rw (le→ltb (sub64 m i) 0 (omega arith))

copy_within :
    (buf : List ℕ) (m i x : ℕ) (src : List ℕ)
    → i + 1 < m
    → m ≤ 2 ^ 63
    → copy buf m i (x ∷ src) ≡ copy (set buf i x) m (i + 1) src
unfolding copy memcpy
copy_within buf m i x src p q =
    let e : tail_count m i (suc (length src)) ≡ suc (tail_count m (i + 1) (length src)) =
      unfold tail_count in ground arith in
    rw e refl

copy_across :
    (buf : List ℕ) (m i x : ℕ) (src : List ℕ)
    → i + 1 ≡ m
    → m ≤ 2 ^ 63
    → length src ≤ m
    → copy buf m i (x ∷ src) ≡ copy (set buf i x) m 0 src
unfolding copy memcpy
copy_across buf m i x src p q l =
    let e : tail_count m i (suc (length src)) ≡ suc zero = unfold tail_count in ground arith in
    let z : tail_count m 0 (length src) ≡ length src = unfold tail_count in ground arith in
    rw (e, z, take_all (length src) src (omega arith), drop_all (length src) src (omega arith)) refl

next_slot : (m i : ℕ) → i < m → (i + 1 < m) ⊎ (i + 1 ≡ m)
next_slot m i p = elim (dec_lt (i + 1) m) [ yes q ↦ inl q | no q ↦ inr (omega arith) ]

copy-cons :
    (buf : List ℕ) (m i x : ℕ) (src : List ℕ)
    → i < m
    → m ≤ 2 ^ 63
    → length src ≤ m
    → copy buf m i (x ∷ src) ≡ copy (set buf i x) m ((i + 1) % m) src
copy-cons buf m i x src p q l = elim (next_slot m i p) [
  | inl e ↦ rw (mod-eq_of_lt e) (copy_within buf m i x src e q)
  | inr e ↦
      copy_across buf m i x src e q l
      ∙ ap (λ k. copy (set buf i x) m k src) (sym (ap (λ k. k % m) e ∙ mod_self m))
]

push_backv-nil : {r : Ring} → IsValid r → push_backv r [] ≡ some r
unfolding push_backv copy
push_backv-nil {r} v =
    ground (arith, copy-nil r.store r.cap (back_slot r), mod-lt (r.offset + r.len) {m = r.cap})

-- The length test fails, or the bytes fit.
push_backv_full :
    {r : Ring} (src : List ℕ)
    → IsValid r
    → r.len + length src < 2 ^ 64
    → r.cap < r.len + length src
    → push_backv r src ≡ none
unfolding push_backv
push_backv_full {r} src v s p = ground arith

push_backv_fits :
    {r : Ring} (src : List ℕ)
    → IsValid r
    → r.len + length src ≤ r.cap
    → push_backv r src
      ≡ some (record r { store = copy r.store r.cap (back_slot r) src; len = r.len + length src })
unfolding push_backv copy tail_count
push_backv_fits {r} src v p = ground (arith, mod-lt (r.offset + r.len) {m = r.cap})

push_back_fits :
    {r : Ring} (x : ℕ)
    → IsValid r
    → r.len < r.cap
    → push_back r x ≡ some (record r { store = set r.store (back_slot r) x; len = r.len + 1 })
unfolding push_back
push_back_fits {r} x v p = ground (arith, mod-lt (r.offset + r.len) {m = r.cap})

abbrev pushed : Ring → ℕ → Ring
pushed r x = record r { store = set r.store (back_slot r) x; len = r.len + 1 }

pushed-IsValid : {r : Ring} (x : ℕ) → IsValid r → r.len < r.cap → IsValid (pushed r x)
pushed-IsValid x v p = (rw (push_back_fits x v p) at (push_back-Keeps x v)).0

back_slot-pushed :
    {r : Ring} (x : ℕ)
    → IsValid r
    → r.len < r.cap
    → (back_slot r + 1) % r.cap ≡ back_slot (pushed r x)
back_slot-pushed {r} x v p =
    let e : add64 r.offset r.len + 1 ≡ add64 r.offset (r.len + 1) = omega arith in
    mod-add-mod (add64 r.offset r.len) r.cap 1 ∙ ap (λ k. k % r.cap) e

push_backv-cons :
    {r : Ring} (x : ℕ) (src : List ℕ)
    → IsValid r
    → r.len + length (x ∷ src) ≤ r.cap
    → push_backv r (x ∷ src) ≡ (push_back r x >>= λ r'. push_backv r' src)
push_backv-cons {r} x src v p =
    rw
      (
        push_backv_fits (x ∷ src) v p,
        push_back_fits x v (omega arith),
        push_backv_fits src (pushed-IsValid x v (omega arith)) (omega arith),
      )
      (ap₂ (λ s n. some (record r { store = s; len = n })) copied (omega arith))
  where
    copied :
        copy r.store r.cap (back_slot r) (x ∷ src)
        ≡ copy (pushed r x).store r.cap (back_slot (pushed r x)) src
    copied =
        copy-cons r.store r.cap (back_slot r) x src (mod-lt _ (omega arith)) v.small (omega arith)
        ∙ ap (λ k. copy (pushed r x).store r.cap k src) (back_slot-pushed x v (omega arith))

contents-pushed :
    {r : Ring} (x : ℕ) → IsValid r → r.len < r.cap → contents (pushed r x) ≡ contents r ++ (x ∷ [])
unfolding Abstract.push_back
contents-pushed {r} x v p =
    ground (arith, push_back_fits x v p, push_back_refines x v, length-contents r)

-- On a valid ring, copying bytes that fit, in two blocks, gives the very ring that pushing them one
-- by one gives.
pub push_backv-push_each :
    (src : List ℕ) {r : Ring}
    → IsValid r
    → r.len + length src ≤ r.cap
    → push_backv r src ≡ push_each r src
unfolding push_each
push_backv-push_each [] v p = push_backv-nil v
push_backv-push_each (x ∷ src) {r} v p =
    let fits = push_back_fits x v (omega arith) in
    let v' = pushed-IsValid x v (omega arith) in
    push_backv-cons x src v p ∙ rw fits (push_backv-push_each src {r = pushed r x} v' (omega arith))

record Holds (q : List ℕ) (m : ℕ) (r : Ring) : Type 0 where
  pub valid : IsValid r
  pub same_cap : r.cap ≡ m
  pub bytes : contents r ≡ q

push_each-Holds :
    (src : List ℕ) {r : Ring}
    → IsValid r
    → r.len + length src ≤ r.cap
    → (r' : Ring) × (push_each r src ≡ some r') × Holds (contents r ++ src) r.cap r'
unfolding push_each
push_each-Holds [] {r} v p =
    (r, refl, record { valid = v; same_cap = refl; bytes = sym (append-nil (contents r)) })
push_each-Holds (x ∷ src) {r} v p =
    let fits = push_back_fits x v (omega arith) in
    let v' = pushed-IsValid x v (omega arith) in
    let (r', e, h) = push_each-Holds src {r = pushed r x} v' (omega arith) in
    (
      r',
      rw fits e,
      record {
        valid = h.valid;
        same_cap = h.same_cap;
        bytes =
            h.bytes
            ∙ ap (λ q. q ++ src) (contents-pushed x v (omega arith))
            ∙ append_assoc (contents r) (x ∷ []) src;
      },
    )

push_backv-Holds :
    (src : List ℕ) {r : Ring}
    → IsValid r
    → r.len + length src ≤ r.cap
    → (r' : Ring) × (push_backv r src ≡ some r') × Holds (contents r ++ src) r.cap r'
push_backv-Holds src v p =
    let (r', e, h) = push_each-Holds src v p in (r', push_backv-push_each src v p ∙ e, h)

-- Bytes are appended in order if they fit, and refused as a whole if not.
pub push_backv_refines :
    {r : Ring} (src : List ℕ)
    → IsValid r
    → r.len + length src < 2 ^ 64
    → view (push_backv r src) ≡ Abstract.push_backv r.cap (contents r) src
unfolding Abstract.push_backv
push_backv_refines {r} src v small = elim (dec_lt r.cap (r.len + length src)) [
  | yes p ↦ rw (push_backv_full src v small p) (ground (arith, length-contents r))
  | no p ↦
      let (r', e, h) = push_backv-Holds src v (omega arith) in
      ground (arith, e, h.bytes, length-contents r)
]

pub push_backv-Keeps :
    {r : Ring} (src : List ℕ)
    → IsValid r
    → r.len + length src < 2 ^ 64
    → Keeps r.cap (push_backv r src)
push_backv-Keeps {r} src v small = elim (dec_lt r.cap (r.len + length src)) [
  | yes p ↦ rw (push_backv_full src v small p) tt
  | no p ↦ let (r', e, h) = push_backv-Holds src v (omega arith) in rw e (h.valid, h.same_cap)
]
