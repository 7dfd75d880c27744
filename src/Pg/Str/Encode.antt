-- ===== src/Pg/Str/Encode.antt =====
-- The url encoding writes every byte as `%` and two digits, which can be read back.
use c_fs_subscriber.Base.{
  ltb, ◌==◌, if◌then◌else◌, length, replicate, All, length-replicate, get_elem?-eq-get_or,
  get_or-replicate, ◌>>=◌, ◌>>◌, assert, ℕ, ◌+◌, ◌-◌, ◌*◌, ◌/◌, ◌%◌, ◌<◌, ◌≡◌, refl, sym, ap, ◌∙◌,
  Option, none, some, [], ◌∷◌, ◌++◌, append-nil, append_assoc, arith,
}
use c_fs_subscriber.Pg.Span.{Span}
use c_fs_subscriber.Pg.Str.{
  Str, text, heap_realloc, make_reserve, encode_from, url_encode, percent, hex_digit,
}
use c_fs_subscriber.Pg.Str.Append.{IsValid, append_length_lem}

-- the number that a digit writes
abbrev pub hex_value : ℕ → ℕ
hex_value d = if ltb d 58 then d - 48 else d - 55

-- What a reader of the encoding sees.
abbrev pub decode : Span → Option Span
decode [] = some []
decode (m ∷ a ∷ b ∷ rest) = do
  assert (m == b'%')
  s ← decode rest
  some ((hex_value a * 16 + hex_value b) ∷ s)
decode _ = none

abbrev pub encoded : Span → Span
encoded [] = []
encoded (c ∷ s) = percent c ++ encoded s

hex_value-hex_digit : (n : ℕ) → n < 16 → hex_value (hex_digit n) ≡ n
unfolding hex_digit
hex_value-hex_digit n h = ground arith

decode-encoded : (s : Span) → All (λ b. b < 256) s → decode (encoded s) ≡ some s
unfolding percent
decode-encoded [] w = refl
decode-encoded (c ∷ s) (w, ws) =
    rw
      (
        decode-encoded s ws,
        hex_value-hex_digit (c / 16) (omega arith),
        hex_value-hex_digit (c % 16) (omega arith),
      )
      (ap (λ t. some (t ∷ s)) (omega arith))

make_reserve-IsValid : (n : ℕ) → IsValid (make_reserve n)
unfolding make_reserve heap_realloc
make_reserve-IsValid n = record {
  size = length-replicate {A = ℕ} (n + 1 - 0) 0 ∙ omega arith;
  fits = omega arith;
  terminated =
      get_elem?-eq-get_or (replicate (n + 1 - 0) 0) 0 0
        (omega (arith, length-replicate {A = ℕ} (n + 1 - 0) 0))
      ∙ ap some (get_or-replicate (n + 1 - 0) 0 0);
}

encode_from_lem :
    (s : Span) (res : Str)
    → IsValid res
    → (r : Str) × (encode_from res s ≡ some r) × IsValid r × (text r ≡ text res ++ encoded s)
unfolding encode_from
encode_from_lem [] res v = (res, refl, v, sym (append-nil (text res)))
encode_from_lem (c ∷ s) res v =
    let (res1, e1, v1, t1) = append_length_lem res (percent c) v in
    let (r, e, vr, t) = encode_from_lem s res1 v1 in
    rw e1
      (r, e, vr, t ∙ ap (λ x. x ++ encoded s) t1 ∙ append_assoc (text res) (percent c) (encoded s))

pub url_encode-encoded :
    (s : Span) → (r : Str) × (url_encode s ≡ some r) × IsValid r × (text r ≡ encoded s)
unfolding url_encode make_reserve heap_realloc
url_encode-encoded s =
    encode_from_lem s (make_reserve (3 * length s)) (make_reserve-IsValid (3 * length s))

pub length-encoded : (s : Span) → length (encoded s) ≡ 3 * length s
unfolding percent
length-encoded [] = refl
length-encoded (c ∷ s) = omega (arith, length-encoded s)

-- `pg_span_url_encode` succeeds for bytes of any number; its result is a well-formed string, from whose text
-- a reader of the encoding (`%` and two hexadecimal digits for each byte) gets the bytes back.
pub url_encode_lem :
    (s : Span)
    → All (λ b. b < 256) s
    → (r : Str) × (url_encode s ≡ some r) × IsValid r × (decode (text r) ≡ some s)
url_encode_lem s w =
    let (r, e, v, t) = url_encode-encoded s in (r, e, v, ap decode t ∙ decode-encoded s w)
