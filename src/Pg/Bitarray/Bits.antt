-- ===== src/Pg/Bitarray/Bits.antt =====
-- A bit array as a function from indices to bits: what each operation does to it.
use c_fs_subscriber.Base
use c_fs_subscriber.Base.{
  ltb, ◌==◌, if◌then◌else◌, lt→ltb, length, get_or, replicate, All, length-set, length-replicate,
  get_or-set_self, get_or-set_ne, All-set, All-replicate, All-get_or, ℕ, zero, suc, ◌+◌, ◌/◌, ◌%◌,
  ◌≤◌, ◌<◌, ◌≡◌, refl, ap, ◌∙◌, Bool, true, false, some, List, [], ◌∷◌, arith, ℕ_discrete,
}
use c_fs_subscriber.Pg.Bitarray.{
  Bitarray, ceil_div8, init, memcpy, setv, set_bit, unset_bit, test_bit, set, get, unset, fill,
  set_all, unset_all,
}
use c_fs_subscriber.Pg.Bitarray.Byte.{
  test_bit-set_bit, test_bit-unset_bit, test_bit-constant, set_bit-lt, unset_bit-lt,
}

abbrev pub IsByte : ℕ → Type 0
IsByte x = x < 256

pub record IsValid (b : Bitarray) : Type 0 where
  pub sized : length b.store ≡ 1 + ceil_div8 b.max_index
  pub bytes : All IsByte b.store

-- The bit at an index, `false` outside of the storage.
unfoldable pub bit : Bitarray → ℕ → Bool
bit b i = test_bit (get_or b.store (i / 8) 0) (i % 8)

-- Bit `i` of `b'` is `v`, and every other bit is that of `b`.
pub record Updates (b : Bitarray) (i : ℕ) (v : Bool) (b' : Bitarray) : Type 0 where
  pub valid : IsValid b'
  pub same_max : b'.max_index ≡ b.max_index
  pub bits : (j : ℕ) → bit b' j ≡ (if i == j then v else bit b j)

pub in_store : {b : Bitarray} (i : ℕ) → IsValid b → i ≤ b.max_index → i / 8 < length b.store
in_store i v p = omega arith

pub get_lem : {b : Bitarray} (i : ℕ) → IsValid b → i ≤ b.max_index → get b i ≡ some (bit b i)
unfolding get bit
get_lem {b} i v p = rw (lt→ltb _ _ (in_store i v p))

IsByte-at : {b : Bitarray} (i : ℕ) → IsValid b → IsByte (get_or b.store i 0)
IsByte-at {b} i v = All-get_or IsByte b.store i 0 (omega arith) v.bytes

module _ {b : Bitarray} (f : ℕ → ℕ → ℕ) (v : Bool) (byte : (x k : ℕ) → f x k < 256)
    (law : (x k j : ℕ)
      → x < 256
      → k < 8
      → j < 8
      → test_bit (f x k) j ≡ (if k == j then v else test_bit x j))
    (i : ℕ) (valid : IsValid b) (p : i ≤ b.max_index) where
  abbrev changed : Bitarray
  changed = record b { store = Base.set b.store (i / 8) (f (get_or b.store (i / 8) 0) (i % 8)) }

  changed-bit : (j : ℕ) → bit changed j ≡ (if i == j then v else bit b j)
  unfolding bit
  changed-bit j = elim (ℕ_discrete (i / 8) (j / 8)) [
    | yes e ↦
        rw (← e, get_or-set_self b.store (i / 8) _ 0 (in_store i valid p))
          (ground (
            arith,
            law (get_or b.store (i / 8) 0) (i % 8) (j % 8) (IsByte-at (i / 8) valid) (omega arith)
                (omega arith),
          ))
    | no e ↦ rw (get_or-set_ne b.store _ 0 e) (ground arith)
  ]

  changed-Updates : Updates b i v changed
  changed-Updates = record {
    valid = record {
      sized = length-set b.store (i / 8) _ ∙ valid.sized;
      bytes = All-set IsByte b.store (i / 8) _ (byte _ _) valid.bytes;
    };
    same_max = refl;
    bits = changed-bit;
  }

-- Setting a bit in range of a valid array returns a valid array of the same size, in which that bit
-- is set and every other bit is as before.
pub set-Updates :
    {b : Bitarray} (i : ℕ)
    → IsValid b
    → i ≤ b.max_index
    → (b' : Bitarray) × (set b i ≡ some b') × Updates b i true b'
unfolding set
set-Updates {b} i v p = (
  _,
  rw (lt→ltb _ _ (in_store i v p)),
  changed-Updates set_bit true set_bit-lt test_bit-set_bit i v p,
)

-- Unsetting a bit in range of a valid array returns a valid array of the same size, in which that
-- bit is not set and every other bit is as before.
pub unset-Updates :
    {b : Bitarray} (i : ℕ)
    → IsValid b
    → i ≤ b.max_index
    → (b' : Bitarray) × (unset b i ≡ some b') × Updates b i false b'
unfolding unset
unset-Updates {b} i v p = (
  _,
  rw (lt→ltb _ _ (in_store i v p)),
  changed-Updates unset_bit false unset_bit-lt test_bit-unset_bit i v p,
)

pub length-fill : (x : ℕ) (xs : List ℕ) → length (fill x xs) ≡ length xs
unfolding fill
length-fill x [] = refl
length-fill x (y ∷ ys) = ap suc (length-fill x ys)

get_or-fill : (x : ℕ) (xs : List ℕ) (i : ℕ) → i < length xs → get_or (fill x xs) i 0 ≡ x
unfolding fill
get_or-fill x [] i p = absurd (omega arith)
get_or-fill x (y ∷ ys) zero p = refl
get_or-fill x (y ∷ ys) (suc i) p = get_or-fill x ys i (omega arith)

All-fill : (x : ℕ) (xs : List ℕ) → IsByte x → All IsByte (fill x xs)
unfolding fill
All-fill x [] p = tt
All-fill x (y ∷ ys) p = (p, All-fill x ys p)

get_or-replicate : (n i : ℕ) → get_or (replicate n zero) i 0 ≡ 0
get_or-replicate zero i = refl
get_or-replicate (suc n) zero = refl
get_or-replicate (suc n) (suc i) = get_or-replicate n i

-- Every bit in range is `v`.
abbrev pub AllBits : Bool → Bitarray → Type 0
AllBits v b = (i : ℕ) → i ≤ b.max_index → bit b i ≡ v

pub init_lem : (n : ℕ) → IsValid (init n) × AllBits false (init n)
unfolding init bit
init_lem n = (
  record {
    sized = length-replicate (1 + ceil_div8 n) 0;
    bytes = All-replicate IsByte (1 + ceil_div8 n) 0 (omega arith);
  },
  λ i p. rw get_or-replicate (test_bit-constant (i % 8) (omega arith)).1,
)

pub set_all_lem : {b : Bitarray} → IsValid b → IsValid (set_all b) × AllBits true (set_all b)
unfolding set_all bit
set_all_lem {b} v = (
  record {
    sized = length-fill 0xff b.store ∙ v.sized;
    bytes = All-fill 0xff b.store (omega arith);
  },
  λ i p.
      rw (get_or-fill 0xff b.store (i / 8) (in_store i v p))
        (test_bit-constant (i % 8) (omega arith)).0,
)

pub unset_all_lem : {b : Bitarray} → IsValid b → IsValid (unset_all b) × AllBits false (unset_all b)
unfolding unset_all bit
unset_all_lem {b} v = (
  record { sized = length-fill 0 b.store ∙ v.sized; bytes = All-fill 0 b.store (omega arith) },
  λ i p.
      rw (get_or-fill 0 b.store (i / 8) (in_store i v p))
        (test_bit-constant (i % 8) (omega arith)).1,
)

length-memcpy : (dst src : List ℕ) → length (memcpy dst src) ≡ length dst
unfolding memcpy
length-memcpy dst [] = refl
length-memcpy [] (x ∷ xs) = refl
length-memcpy (d ∷ dst) (x ∷ xs) = ap suc (length-memcpy dst xs)

All-memcpy : (dst src : List ℕ) → All IsByte dst → All IsByte src → All IsByte (memcpy dst src)
unfolding memcpy
All-memcpy dst [] p q = p
All-memcpy [] (x ∷ xs) p q = tt
All-memcpy (d ∷ dst) (x ∷ xs) p q = (q.0, All-memcpy dst xs p.1 q.1)

get_or-memcpy :
    (dst src : List ℕ) (i : ℕ)
    → length src ≤ length dst
    → get_or (memcpy dst src) i 0 ≡ (if ltb i (length src) then get_or src i 0 else get_or dst i 0)
unfolding memcpy
get_or-memcpy dst [] i p = ground arith
get_or-memcpy [] (x ∷ xs) i p = absurd (omega arith)
get_or-memcpy (d ∷ dst) (x ∷ xs) zero p = ground arith
get_or-memcpy (d ∷ dst) (x ∷ xs) (suc i) p = ground (arith, get_or-memcpy dst xs i)

-- `setv` takes its bits from the bytes that it is given, and the others from before.
pub setv_lem :
    {b : Bitarray} (src : List ℕ)
    → IsValid b
    → All IsByte src
    → length src ≤ 1 + b.max_index
    → length src ≤ length b.store
    → (b' : Bitarray) × (setv b src ≡ some b')
      × IsValid b'
      × (b'.max_index ≡ b.max_index)
      × ((i : ℕ)
          → bit b' i ≡ (
              if ltb (i / 8) (length src)
              then test_bit (get_or src (i / 8) 0) (i % 8)
              else bit b i))
unfolding setv bit
setv_lem {b} src v bytes p q = (
  record b { store = memcpy b.store src },
  ground arith,
  record {
    sized = length-memcpy b.store src ∙ v.sized;
    bytes = All-memcpy b.store src v.bytes bytes;
  },
  refl,
  λ i. ground (arith, get_or-memcpy b.store src (i / 8) q),
)
