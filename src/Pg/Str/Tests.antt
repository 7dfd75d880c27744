-- ===== src/Pg/Str/Tests.antt =====
-- The theorems on strings at small strings.
use c_fs_subscriber.Base.{◌≡◌, refl, some, [], ◌∷◌, arith}
use c_fs_subscriber.Pg.Str.{Str, text, append_length, url_encode}
use c_fs_subscriber.Pg.Str.Append.{IsValid, append_length_lem}
use c_fs_subscriber.Pg.Str.Encode.{decode, url_encode_lem}

abbrev ab : Str
ab = record { buffer = b'a' ∷ b'b' ∷ 0 ∷ []; length = 2; capacity = 2 }

append_length_lem_example :
    (s : Str) × (append_length ab (b'c' ∷ []) ≡ some s)
    × IsValid s
    × (text s ≡ (b'a' ∷ b'b' ∷ b'c' ∷ []))
append_length_lem_example =
    append_length_lem ab (b'c' ∷ []) (record { size = refl; fits = omega arith; terminated = refl })

url_encode_lem_example :
    (r : Str) × (url_encode (255 ∷ 0 ∷ []) ≡ some r)
    × IsValid r
    × (decode (text r) ≡ some (255 ∷ 0 ∷ []))
url_encode_lem_example = url_encode_lem (255 ∷ 0 ∷ []) (omega arith, (omega arith, tt))
