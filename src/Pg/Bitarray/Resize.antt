-- ===== src/Pg/Bitarray/Resize.antt =====
-- What `pg_bitarray_resize` leaves at a multiple of eight.
use c_fs_subscriber.Base.{
  lt→ltb, length, get_or, take, length-append, length-take, ℕ, ◌+◌, ◌*◌, ◌/◌, ◌%◌, ◌≤◌, ◌<◌, ◌≡◌,
  refl, ◌≢◌, Bool, none, some, List, ◌++◌, arith,
}
use c_fs_subscriber.Pg.Bitarray.{test_bit, Bitarray, ceil_div8, len, get, resize}

-- After a resize to a maximum index that is a multiple of eight, `len` counts the bit at that index as
-- the last one, and reading it fails its `assert`.
pub get-resize :
    (b : Bitarray) (k : ℕ) (behind : List ℕ)
    → (len (resize b (8 * k) behind) ≡ 8 * k + 1) × (get (resize b (8 * k) behind) (8 * k) ≡ none)
unfolding get resize len
get-resize b k behind = (refl, ground (arith, length-take (ceil_div8 (8 * k)) (b.store ++ behind)))

-- After a resize to any other maximum index, with enough bytes behind, every bit that `len` counts
-- can be read.
pub get-resize_other :
    (b : Bitarray) (n i : ℕ) (behind : List ℕ)
    → n % 8 ≢ 0
    → ceil_div8 n ≤ length b.store + length behind
    → i < len (resize b n behind)
    → (x : Bool) × (get (resize b n behind) i ≡ some x)
unfolding get resize len
get-resize_other b n i behind h p q =
    let store = take (ceil_div8 n) (b.store ++ behind) in
    let e : i / 8 < length store =
      omega (arith, length-take (ceil_div8 n) (b.store ++ behind), length-append b.store behind) in
    (test_bit (get_or store (i / 8) 0) (i % 8), rw (lt→ltb (i / 8) (length store) e))
