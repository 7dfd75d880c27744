-- ===== src/Pg/Pool/Valid.antt =====
-- The free list of `pg_pool_t`: chunks of the buffer, no two of them the same.
use native.Mathlib.Nat.{mul-div_cancel}
use c_fs_subscriber.Base.{
  lt→ltb, le→leb, length, All, mul64, ℕ, zero, suc, ◌+◌, ◌-◌, ◌*◌, ◌/◌, ◌^◌, ◌≤◌, ◌<◌, ◌≡◌, refl,
  sym, ◌∙◌, subst, ◌≢◌, Option, none, some, List, [], ◌∷◌, arith,
}
use c_fs_subscriber.Pg.Pool.{Pool, alloc, free, free_from, free_all, init, align_forward}

abbrev pub Distinct : List ℕ → Type 0
Distinct [] = Unit {0}
Distinct (x ∷ xs) = All (λ y. x ≢ y) xs × Distinct xs

-- `x` is the offset of a chunk of `size` bytes in a buffer of `len` bytes.
pub record IsChunk (size len x : ℕ) : Type 0 where
  pub number : ℕ
  pub starts : x ≡ number * size
  pub inside : x + size ≤ len

pub record IsValid (p : Pool) : Type 0 where
  pub roomy : 8 < p.chunk_size
  pub small : p.buf_len < 2 ^ 64
  pub chunks : All (IsChunk p.chunk_size p.buf_len) p.free_chunks
  pub distinct : Distinct p.free_chunks

-- What `pg_pool_alloc` gives: where a chunk is free, one of the chunks of the buffer, and a valid pool
-- whose free chunks are the others; where none is free, `NULL`, and the pool as it was.
abbrev pub Gives : Pool → Option ℕ × Pool → Type 0
Gives p (none, p') = (p' ≡ p) × (p.free_chunks ≡ [])
Gives p (some c, p') =
    IsChunk p.chunk_size p.buf_len c
    × IsValid p'
    × All (λ y. c ≢ y) p'.free_chunks
    × (p.free_chunks ≡ c ∷ p'.free_chunks)
    × (p'.chunk_size ≡ p.chunk_size)
    × (p'.buf_len ≡ p.buf_len)

alloc_empty : {p : Pool} → p.free_chunks ≡ [] → alloc p ≡ (none, p)
unfolding alloc
alloc_empty e = ground arith

pub alloc_first :
    {p : Pool} (c : ℕ) (cs : List ℕ)
    → p.free_chunks ≡ c ∷ cs
    → alloc p ≡ (some c, record p { free_chunks = cs })
unfolding alloc
alloc_first c cs e = ground arith

alloc_from : (cs : List ℕ) {p : Pool} → IsValid p → p.free_chunks ≡ cs → Gives p (alloc p)
unfolding alloc
alloc_from [] {p} v e = subst (Gives p) (sym (alloc_empty e)) (refl, e)
alloc_from (c ∷ cs) {p} v e =
    let chunks = subst (All (IsChunk p.chunk_size p.buf_len)) e v.chunks in
    let distinct = subst Distinct e v.distinct in
    subst (Gives p) (sym (alloc_first c cs e)) (
      chunks.0,
      record { roomy = v.roomy; small = v.small; chunks = chunks.1; distinct = distinct.1 },
      distinct.0,
      e,
      refl,
      refl,
    )

-- A valid pool gives out a chunk of its buffer that is then no longer free, so that it is not given
-- out again before it is freed, and stays valid; it gives `NULL` exactly when no chunk is free.
pub alloc_lem : {p : Pool} → IsValid p → Gives p (alloc p)
alloc_lem {p} v = alloc_from p.free_chunks v refl

-- In a valid pool, a chunk of the buffer that is not free can be freed: no `assert` fails, the pool
-- stays valid, and the chunk is the next one to be given out.
pub free_lem :
    {p : Pool} (c : ℕ)
    → IsValid p
    → IsChunk p.chunk_size p.buf_len c
    → All (λ y. c ≢ y) p.free_chunks
    → (p' : Pool) × (free p c ≡ some p') × IsValid p' × (alloc p' ≡ (some c, p))
unfolding free alloc
free_lem {p} c v k n = (
  record p { free_chunks = c ∷ p.free_chunks },
  rw (lt→ltb c (p.buf_len - 8) (omega (arith, v.roomy, k.inside))),
  record { roomy = v.roomy; small = v.small; chunks = (k, v.chunks); distinct = (n, v.distinct) },
  refl,
)

All-map {ℓ κ μ} :
    {A : Type ℓ} (P : A → Type κ) (Q : A → Type μ) (xs : List A)
    → ((x : A) → P x → Q x)
    → All P xs
    → All Q xs
All-map P Q [] f h = tt
All-map P Q (x ∷ xs) f h = (f x h.0, All-map P Q xs f h.1)

free_from-IsValid :
    (n i : ℕ) {p : Pool}
    → IsValid p
    → All (λ y. y < i * p.chunk_size) p.free_chunks
    → (i + n) * p.chunk_size ≤ p.buf_len
    → IsValid (free_from p n i)
      × (length (free_from p n i).free_chunks ≡ n + length p.free_chunks)
      × ((free_from p n i).chunk_size ≡ p.chunk_size)
      × ((free_from p n i).buf_len ≡ p.buf_len)
unfolding free_from
free_from-IsValid zero i v below fits = (v, omega arith, refl, refl)
free_from-IsValid (suc n) i {p} v below fits =
    let c = i * p.chunk_size in
    let bound : c + p.chunk_size ≤ p.buf_len = grind arith in
    let same : mul64 i p.chunk_size ≡ c = omega (arith, v.small, v.roomy) in
    let next =
      free_from-IsValid n (i + 1)
        {p = record p { free_chunks = mul64 i p.chunk_size ∷ p.free_chunks }}
        (record {
          roomy = v.roomy;
          small = v.small;
          chunks = (record { number = i; starts = same; inside = omega arith }, v.chunks);
          distinct = (
            All-map (λ y. y < c) (λ y. mul64 i p.chunk_size ≢ y) p.free_chunks
                (λ y h e. omega arith) below,
            v.distinct,
          );
        })
        (
          grind (arith, v.roomy),
          All-map (λ y. y < c) (λ y. y < (i + 1) * p.chunk_size) p.free_chunks (λ y h. grind arith)
              below,
        )
        (grind arith) in
    (next.0, omega (arith, next.1), next.2, next.3)

-- Where `chunk_size` is aligned to `c` bytes and `n` chunks of that size fit in 2^64 bytes,
-- `pg_pool_init` gives a valid pool with `n` free chunks.
init_frees_all :
    (chunk_size n c : ℕ)
    → align_forward chunk_size 16 ≡ some c
    → 8 < c
    → n * c < 2 ^ 64
    → (p : Pool) × (init chunk_size n ≡ some p)
      × IsValid p
      × (length p.free_chunks ≡ n)
      × (p.chunk_size ≡ c)
      × (p.buf_len ≡ n * c)
unfolding init
init_frees_all chunk_size n c a big fits =
    let empty : Pool = record { buf_len = mul64 n c; chunk_size = c; free_chunks = [] } in
    let len : mul64 n c ≡ n * c = omega arith in
    let rounds : mul64 n c / c ≡ n = rw len (mul-div_cancel n (omega arith)) in
    let all =
      free_from-IsValid (mul64 n c / c) 0 {p = empty}
        (record { roomy = big; small = omega arith; chunks = tt; distinct = tt }) tt
        (rw rounds (omega arith)) in
    (
      free_all empty,
      rw (a, le→leb 8 c (omega arith)) refl,
      all.0,
      omega (arith, all.1),
      all.2,
      all.3 ∙ len,
    )
