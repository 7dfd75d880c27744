-- ===== src/Torrent/Bencode.antt =====
-- The bencode parser (`bc_parse` of torrent/bencode.h). It fills three parallel arrays, one entry
-- for each value in the order of their first bytes. The recursion, and
-- the loops over the items of a list or a dictionary, take a unit of fuel at each level.
pub mod Shape
pub mod Hang
pub mod Keys
pub mod Ends
mod Tests
use c_fs_subscriber.Base.{
  ltb, leb, ◌==◌, if◌then◌else◌, length, get_elem?, get_or, set, take, drop, ◌>>=◌, add64, mul64, ℕ,
  zero, suc, ◌+◌, ◌-◌, ◌/◌, ◌%◌, ◌^◌, Bool, true, false, not, ◌&&◌, ◌||◌, Option, none, some, List,
  [], ◌∷◌, ◌++◌,
}
use c_fs_subscriber.Pg.Char.{is_digit}
use c_fs_subscriber.Pg.Span.{Span, split_at_first}

pub data Kind : Type 0 where
  no_kind integer string array dictionary : Kind

pub data ParseError : Type 0 where
  no_error unexpected_character invalid_number invalid_string invalid_dict : ParseError

-- `parent` is 2^64 - 1 for no parent.
pub record Parser : Type 0 where
  pub spans : List Span
  pub lengths : List ℕ
  pub kinds : List Kind
  pub parent : ℕ

-- A return, with the state and what is left of the input; a failed `assert` or an access outside of
-- an array; or no fuel left, which has no counterpart in the program.
pub data Outcome : Type 0 where
  returns : ParseError → Parser → Span → Outcome
  stops out_of_fuel : Outcome

-- `err = ...; if (err != BC_PE_NONE) return err;`
abbrev pub and_then : Outcome → (Parser → Span → Outcome) → Outcome
and_then (returns no_error p s) k = k p s
and_then (returns e p s) k = returns e p s
and_then stops k = stops
and_then out_of_fuel k = out_of_fuel

-- `assert(b)` before what follows
abbrev pub ensure : Bool → Outcome → Outcome
ensure b o = if b then o else stops

-- `if (parser->parent != -1ULL) parser->lengths[parser->parent] += 1`. A slot past the length is
-- in the block that was reserved, and is written over by the next append.
unfoldable pub count_child : Parser → Parser
count_child p =
    if p.parent == 2 ^ 64 - 1
    then p
    else record p { lengths = set p.lengths p.parent (add64 (get_or p.lengths p.parent 0) 1) }

unfoldable pub append : Span → ℕ → Kind → Parser → Parser
append s n k p = record p {
  spans = p.spans ++ (s ∷ []);
  lengths = p.lengths ++ (n ∷ []);
  kinds = p.kinds ++ (k ∷ []);
}

unfoldable pub all_digits : Span → Bool
unfolding is_digit
all_digits [] = true
all_digits (c ∷ s) = let rest = all_digits s in if not (is_digit c) then false else rest

-- the tests on the text between `i` and `e`, which is not empty
unfoldable pub is_integer_text : Span → Bool
unfolding all_digits
is_integer_text [] = false
is_integer_text (c ∷ s) =
    if c == b'-' && length (c ∷ s) == 1
    then false
    else if c == b'-' && (length (c ∷ s) == 2 && get_or (c ∷ s) 1 0 == b'0')
    then false
    else if not (is_digit c || c == b'-')
    then false
    else if not (all_digits s)
    then false
    else not (ltb 1 (length (c ∷ s)) && c == b'0')

-- `case 'i'`
unfoldable pub parse_integer : Parser → Span → Outcome
unfolding count_child append split_at_first is_integer_text
parse_integer p s =
    let p' = count_child p in
    let (found, left, right) = split_at_first s b'e' in
    let text = drop 1 left in
    if not found
    then returns invalid_number p' s
    else ensure (leb 1 (length left)) (
        if length left == 1
        then returns invalid_number p' s
        else if not (is_integer_text text)
        then returns invalid_number p' s
        else returns no_error (append text (length text) integer p') (drop 1 right))

-- the digits of the length of a string, from the left; `none` is a byte that is no digit
unfoldable pub string_length : Span → ℕ → Option ℕ
unfolding is_digit
string_length [] len = some len
string_length (c ∷ s) len =
    let rest = string_length s (add64 (mul64 len 10) (c - b'0')) in
    if not (is_digit c) then none else rest

-- `case '1'` to `case '9'`
unfoldable pub parse_string : Parser → Span → Outcome
unfolding count_child append split_at_first string_length
parse_string p s =
    let p' = count_child p in
    let (found, left, right) = split_at_first s b':' in
    let text = drop 1 right in
    if not found
    then returns invalid_string p' s
    else ensure (leb 1 (length left)) (elim (string_length left 0) [
      | none ↦ returns invalid_string p' s
      | some len ↦ ensure (ltb 0 len) (
          if ltb (length text) len
          then returns invalid_string p' s
          else returns no_error (append (take len text) len string p') (drop len text))
    ])

-- A value of many parts begins: its entry is added, and it becomes the parent.
unfoldable pub begin_container : Span → Kind → Parser → Parser
unfolding count_child append
begin_container s k p =
    let p' = append s 0 k (count_child p) in record p' { parent = length p'.kinds - 1 }

-- the end of `case 'l'`; `parent` is the former parent
unfoldable pub end_list : ℕ → Parser → Span → Outcome
end_list parent p [] = returns unexpected_character p []
end_list parent p (c ∷ s) =
    if not (c == b'e')
    then returns unexpected_character p (c ∷ s)
    else returns no_error (record p { parent = parent }) s

abbrev is_string : Kind → Bool
is_string string = true
is_string _ = false

abbrev pub is_nested : Kind → Bool
is_nested dictionary = true
is_nested array = true
is_nested _ = false

-- the loop over the keys of a dictionary, with the rounds that are left; `none` is a failed `assert`
-- or a read past the end
unfoldable pub check_keys : List Kind → List ℕ → ℕ → ℕ → Option Bool
check_keys kinds lengths zero j = some true
check_keys kinds lengths (suc n) j = get_elem? kinds j >>= λ key.
    let step = get_elem? kinds (j + 1) >>= λ value.
    check_keys kinds lengths n (if is_nested value then j + get_or lengths (j + 1) 0 else j) in
    if not (is_string key) then some false else step

-- the end of `case 'd'`; `me` is the index of the dictionary
unfoldable pub end_dictionary : ℕ → ℕ → Parser → Span → Outcome
unfolding check_keys
end_dictionary parent me p [] = returns unexpected_character p []
end_dictionary parent me p (c ∷ s) =
    let kv_count = get_or p.lengths me 0 in
    let span = get_or p.spans me [] in
    if not (c == b'e')
    then returns unexpected_character p (c ∷ s)
    else ensure (ltb me (length p.kinds)) (
        if not (kv_count % 2 == 0)
        then returns invalid_dict p s
        else elim (check_keys p.kinds p.lengths (kv_count / 2) (me + 1)) [
          | none ↦ stops
          | some false ↦ returns invalid_dict p s
          | some true ↦
              returns no_error
                (record p {
                  spans = set p.spans me (take (length span - length s) span);
                  parent = parent;
                })
                s
        ])

abbrev is_parallel : Parser → Bool
is_parallel p = length p.spans == length p.lengths && length p.lengths == length p.kinds

unfoldable mutual
  unfolding parse_integer parse_string begin_container end_list end_dictionary

  pub parse : ℕ → Parser → Span → Outcome
  parse zero p s = out_of_fuel
  parse (suc f) p [] = ensure (is_parallel p) (returns no_error p [])
  parse (suc f) p (c ∷ s) =
      let list = and_then (parse_items f (begin_container [] array p) s) (end_list p.parent) in
      let me = length p.kinds in
      let dict =
        and_then (parse_items f (begin_container (c ∷ s) dictionary p) s)
          (end_dictionary p.parent me) in
      ensure (is_parallel p) (
        if c == b'i'
        then parse_integer p (c ∷ s)
        else if leb b'1' c && leb c b'9'
        then parse_string p (c ∷ s)
        else if c == b'l'
        then list
        else if c == b'd'
        then dict
        else if c == 0
        then returns no_error p (c ∷ s)
        else returns unexpected_character p (c ∷ s))

  -- `while (pg_span_peek_left(*input, &more_chars) != 'e' && more_chars)`
  pub parse_items : ℕ → Parser → Span → Outcome
  parse_items zero p s = out_of_fuel
  parse_items (suc f) p [] = returns no_error p []
  parse_items (suc f) p (c ∷ s) =
      let more = and_then (parse f p (c ∷ s)) (parse_items f) in
      if c == b'e' then returns no_error p (c ∷ s) else more
