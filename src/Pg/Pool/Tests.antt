-- ===== src/Pg/Pool/Tests.antt =====
-- A pool of three chunks.
use c_fs_subscriber.Base.{◌≡◌, refl, some, [], ◌∷◌, arith}
use c_fs_subscriber.Pg.Pool.Valid.{IsValid, Gives, alloc_lem, free_lem}
use c_fs_subscriber.Pg.Pool.{Pool, alloc, free, init, align_forward}

three_chunks :
    init 10 3 ≡ some (record { buf_len = 48; chunk_size = 16; free_chunks = 32 ∷ 16 ∷ 0 ∷ [] })
unfolding init align_forward
three_chunks = refl

-- two chunks are free, and the one at 32 is in use
abbrev two_free : Pool
two_free = record { buf_len = 48; chunk_size = 16; free_chunks = 16 ∷ 0 ∷ [] }

two_free-IsValid : IsValid two_free
two_free-IsValid = record {
  roomy = omega arith;
  small = omega arith;
  chunks = (
    record { number = 1; starts = refl; inside = omega arith },
    (record { number = 0; starts = refl; inside = omega arith }, tt),
  );
  distinct = ((λ e. omega arith, tt), (tt, tt));
}

alloc_lem_example : Gives two_free (alloc two_free)
alloc_lem_example = alloc_lem two_free-IsValid

free_lem_example :
    (p' : Pool) × (free two_free 32 ≡ some p') × IsValid p' × (alloc p' ≡ (some 32, two_free))
free_lem_example =
    free_lem 32 two_free-IsValid (record { number = 2; starts = refl; inside = omega arith })
      (λ e. omega arith, (λ e. omega arith, tt))
