-- ===== src/Torrent/Bencode/Ends.antt =====
-- How much of its input each case of `bc_parse` takes, and the fuel that the recursion needs.
use c_fs_subscriber.Base.{
  ◌==◌, length, get_or, set, take, drop, All, length-set, length-drop, ℕ, zero, suc, ◌+◌, ◌-◌, ◌*◌,
  ◌<◌, ◌≡◌, ◌∙◌, false, Option, none, some, [], ◌∷◌, arith,
}
use c_fs_subscriber.Pg.Span.{Span, cut, index_first, split_at_first}
use c_fs_subscriber.Torrent.Bencode.{
  Parser, Outcome, no_error, unexpected_character, invalid_number, invalid_string, invalid_dict,
  returns, stops, out_of_fuel, and_then, parse_integer, parse_string, string_length, integer,
  string, array, dictionary, end_list, end_dictionary, begin_container, parse, parse_items,
}
use c_fs_subscriber.Torrent.Bencode.Shape.{
  IsParallel, IsParallel-is_parallel, count_child-IsParallel, append-IsParallel,
  begin_container-IsParallel,
}

abbrev pub NoNul : Span → Type 0
NoNul = All (λ c. (c == 0) ≡ false)

-- The run kept within its fuel, its arrays are parallel, and if it succeeded fewer than `n` bytes
-- are left, none of them NUL.
abbrev pub Post : ℕ → Outcome → Type 0
Post n (returns no_error p s) = IsParallel p × NoNul s × (length s < n)
Post n (returns unexpected_character p s) = IsParallel p
Post n (returns invalid_number p s) = IsParallel p
Post n (returns invalid_string p s) = IsParallel p
Post n (returns invalid_dict p s) = IsParallel p
Post n stops = Unit {0}
Post n out_of_fuel = ⊥

Post-and_then :
    (n m : ℕ) (o : Outcome) (k : Parser → Span → Outcome)
    → Post n o
    → ((p : Parser) (s : Span) → IsParallel p → NoNul s → length s < n → Post m (k p s))
    → Post m (and_then o k)
Post-and_then n m (returns no_error p s) k h f = f p s h.0 h.1 h.2
Post-and_then n m (returns unexpected_character p s) k h f = h
Post-and_then n m (returns invalid_number p s) k h f = h
Post-and_then n m (returns invalid_string p s) k h f = h
Post-and_then n m (returns invalid_dict p s) k h f = h
Post-and_then n m stops k h f = tt
Post-and_then n m out_of_fuel k h f = absurd h

NoNul-drop : (n : ℕ) (s : Span) → NoNul s → NoNul (drop n s)
NoNul-drop zero s h = h
NoNul-drop (suc n) [] h = tt
NoNul-drop (suc n) (c ∷ s) h = NoNul-drop n s h.1

cut-right :
    (s : Span) (o : Option ℕ) (k : ℕ)
    → NoNul s
    → 0 < length s
    → NoNul (drop k (drop 1 (cut s o).2)) × (length (drop k (drop 1 (cut s o).2)) < length s)
cut-right s none k h pos =
    (NoNul-drop k [] tt, omega (arith, length-drop {0} k (drop {A = ℕ} 1 [])))
cut-right s (some i) k h pos = (
  NoNul-drop k (drop 1 (drop i s)) (NoNul-drop 1 (drop i s) (NoNul-drop i s h)),
  omega (arith, length-drop k (drop 1 (drop i s)), length-drop 1 (drop i s), length-drop i s),
)

-- What stands behind the split is a part of the span.
split-right :
    (s : Span) (needle k : ℕ)
    → NoNul s
    → 0 < length s
    → NoNul (drop k (drop 1 (split_at_first s needle).2))
      × (length (drop k (drop 1 (split_at_first s needle).2)) < length s)
unfolding split_at_first
split-right s needle k h pos = cut-right s (index_first needle s) k h pos

parse_integer-Post :
    (p : Parser) (s : Span)
    → IsParallel p
    → NoNul s
    → 0 < length s
    → Post (length s) (parse_integer p s)
unfolding parse_integer
parse_integer-Post p s h z pos =
    let child = count_child-IsParallel h in
    let text = drop 1 (split_at_first s b'e').1 in
    ground
      (arith, split-right s b'e' 0 z pos, child, append-IsParallel text (length text) integer child)

abbrev get : Option ℕ → ℕ
get none = 0
get (some n) = n

parse_string-Post :
    (p : Parser) (s : Span)
    → IsParallel p
    → NoNul s
    → 0 < length s
    → Post (length s) (parse_string p s)
unfolding parse_string
parse_string-Post p s h z pos =
    let child = count_child-IsParallel h in
    let left = (split_at_first s b':').1 in
    let text = drop 1 (split_at_first s b':').2 in
    let n = string_length left 0 in
    ground (
      arith,
      split-right s b':' (get n) z pos,
      child,
      append-IsParallel (take (get n) text) (get n) string child,
    )

leave-IsParallel : (p : Parser) (n : ℕ) → IsParallel p → IsParallel (record p { parent = n })
leave-IsParallel p n h = record { spans_lengths = h.spans_lengths; lengths_kinds = h.lengths_kinds }

close-IsParallel :
    (p : Parser) (me n : ℕ) (t : Span)
    → IsParallel p
    → IsParallel (record p { spans = set p.spans me t; parent = n })
close-IsParallel p me n t h = record {
  spans_lengths = length-set p.spans me t ∙ h.spans_lengths;
  lengths_kinds = h.lengths_kinds;
}

end_list-Post :
    (m parent : ℕ) (p : Parser) (s : Span)
    → IsParallel p
    → NoNul s
    → length s < m
    → Post m (end_list parent p s)
unfolding end_list
end_list-Post m parent p [] h z l = h
end_list-Post m parent p (c ∷ s) h z l = ground (arith, h, leave-IsParallel p parent h, z)

end_dictionary-Post :
    (m parent me : ℕ) (p : Parser) (s : Span)
    → IsParallel p
    → NoNul s
    → length s < m
    → Post m (end_dictionary parent me p s)
unfolding end_dictionary
end_dictionary-Post m parent me p [] h z l = h
end_dictionary-Post m parent me p (c ∷ s) h z l =
    let span = get_or p.spans me [] in
    let text = take (length span - length s) span in
    ground (arith, h, close-IsParallel p me parent text h, z)

mutual
  unfolding parse parse_items

  parse-Post :
      (f : ℕ) (p : Parser) (c : ℕ) (s : Span)
      → IsParallel p
      → NoNul (c ∷ s)
      → 2 * length (c ∷ s) < f
      → Post (length (c ∷ s)) (parse f p (c ∷ s))
  parse-Post zero p c s h z l = absurd (omega arith)
  parse-Post (suc f) p c s h z l =
      let n = suc (length s) in
      let in_list = begin_container [] array p in
      let in_dict = begin_container (c ∷ s) dictionary p in
      let me = length p.kinds in
      let list =
        Post-and_then n n (parse_items f in_list s) (end_list p.parent)
          (parse_items-Post f in_list s n (begin_container-IsParallel [] array h) z.1 (omega arith)
            (omega arith))
          (λ p' s' h' z' l'. end_list-Post n p.parent p' s' h' z' l') in
      let dict =
        Post-and_then n n (parse_items f in_dict s) (end_dictionary p.parent me)
          (parse_items-Post f in_dict s n (begin_container-IsParallel (c ∷ s) dictionary h) z.1
            (omega arith) (omega arith))
          (λ p' s' h' z' l'. end_dictionary-Post n p.parent me p' s' h' z' l') in
      ground (
        arith,
        IsParallel-is_parallel h,
        h,
        z,
        parse_integer-Post p (c ∷ s) h z (omega arith),
        parse_string-Post p (c ∷ s) h z (omega arith),
        list,
        dict,
      )

  parse_items-Post :
      (f : ℕ) (p : Parser) (s : Span) (m : ℕ)
      → IsParallel p
      → NoNul s
      → 2 * length s + 1 < f
      → length s < m
      → Post m (parse_items f p s)
  parse_items-Post zero p s m h z l lm = absurd (omega arith)
  parse_items-Post (suc f) p [] m h z l lm = (h, tt, lm)
  parse_items-Post (suc f) p (c ∷ s) m h z l lm =
      let more =
        Post-and_then (suc (length s)) m (parse f p (c ∷ s)) (parse_items f)
          (parse-Post f p c s h z (omega arith))
          (λ p' s' h' z' l'. parse_items-Post f p' s' m h' z' (omega arith) (omega arith)) in
      ground (arith, h, z, more)

-- On an input that is not empty and has no NUL byte, from a parser whose three arrays have one
-- length, and with fuel for two calls for each byte and one more, the parser returns or fails an
-- `assert` or an access: it never runs out of fuel. The arrays have one length again whatever it returns, and when
-- it succeeds it has taken a byte at least, and what is left has no NUL byte.
pub parse_lem :
    (f : ℕ) (p : Parser) (c : ℕ) (s : Span)
    → IsParallel p
    → NoNul (c ∷ s)
    → 2 * length (c ∷ s) < f
    → Post (length (c ∷ s)) (parse f p (c ∷ s))
parse_lem f p c s h z l = parse-Post f p c s h z l
