-- ===== src/Pg/Bitarray/Tests.antt =====
-- The theorems on bit arrays at one of ten bits.
use c_fs_subscriber.Base.{◌+◌, ◌*◌, ◌≡◌, refl, true, none, some, [], ◌∷◌, arith}
use c_fs_subscriber.Pg.Bitarray.{Bitarray, set, get, resize, count_set, count_unset, test_bit, len}
use c_fs_subscriber.Pg.Bitarray.Bits.{IsValid, Updates, set-Updates}
use c_fs_subscriber.Pg.Bitarray.Resize.{get-resize}

-- bits 0 and 9 of ten
abbrev two : Bitarray
two = record { store = 1 ∷ 2 ∷ 0 ∷ []; max_index = 9 }

two-IsValid : IsValid two
two-IsValid = omega arith

set-Updates_example : (b : Bitarray) × (set two 3 ≡ some b) × Updates two 3 true b
set-Updates_example = set-Updates 3 two-IsValid (omega arith)

count_set-two : count_set two ≡ some 2
unfolding count_set test_bit
count_set-two = refl

count_unset-two : count_unset two ≡ some 8
unfolding count_unset test_bit
count_unset-two = refl

get-resize_example :
    (len (resize two (8 * 2) (0 ∷ [])) ≡ 8 * 2 + 1)
    × (get (resize two (8 * 2) (0 ∷ [])) (8 * 2) ≡ none)
get-resize_example = get-resize two 2 (0 ∷ [])
