-- ===== src/Torrent/Bencode/Keys.antt =====
-- The loop that is to check that the keys of a dictionary are strings.
use c_fs_subscriber.Base.{get_elem?, get_or, ℕ, zero, suc, ◌+◌, ◌≡◌, refl, true, false, some, List}
use c_fs_subscriber.Torrent.Bencode.{Kind, string, array, check_keys, is_nested}

-- Where the first key is a string and the first value neither a list nor a dictionary, the loop
-- passes for any number of keys and whatever their kinds: it looks at the first key each time.
pub check_keys_first :
    (kinds : List Kind) (lengths : List ℕ) (n j : ℕ) (value : Kind)
    → get_elem? kinds j ≡ some string
    → get_elem? kinds (j + 1) ≡ some value
    → is_nested value ≡ false
    → check_keys kinds lengths n j ≡ some true
unfolding check_keys
check_keys_first kinds lengths zero j value k v f = refl
check_keys_first kinds lengths (suc n) j value k v f =
    rw (k, v, f) (check_keys_first kinds lengths n j value k v f)

-- Where the first value is a list of one number, the loop refuses any dictionary of two entries or
-- more whose first key is a string: it takes the list for the second key.
check_keys_list :
    (kinds : List Kind) (lengths : List ℕ) (n j : ℕ)
    → get_elem? kinds j ≡ some string
    → get_elem? kinds (j + 1) ≡ some array
    → get_or lengths (j + 1) 0 ≡ 1
    → check_keys kinds lengths (suc (suc n)) j ≡ some false
unfolding check_keys
check_keys_list kinds lengths n j k v f = rw (k, v, f, v) refl
