-- ===== src/Torrent/Bencode/Tests.antt =====
-- Runs of the bencode parser on small inputs.
use c_fs_subscriber.Base.{ℕ, ◌≡◌, refl, true, some, List, [], ◌∷◌, arith}
use c_fs_subscriber.Torrent.Bencode.{
  Kind, Parser, integer, string, array, dictionary, no_error, returns, out_of_fuel, parse,
  check_keys,
}
use c_fs_subscriber.Torrent.Bencode.Shape.{IsParallel}
use c_fs_subscriber.Torrent.Bencode.Ends.{Post, parse_lem}
use c_fs_subscriber.Torrent.Bencode.Hang.{parse-list_nul}
use c_fs_subscriber.Torrent.Bencode.Keys.{check_keys_first}

abbrev start : Parser
start = record { spans = []; lengths = []; kinds = []; parent = 18446744073709551615 }

start-IsParallel : IsParallel start
start-IsParallel = record { spans_lengths = refl; lengths_kinds = refl }

parse-list_nul_example : parse 5 start (b'l' ∷ 0 ∷ b'e' ∷ []) ≡ out_of_fuel
parse-list_nul_example = parse-list_nul 5 start (b'e' ∷ []) start-IsParallel

-- the kinds of `d1:ai1ei2ei3ee`, whose second key is a number
abbrev number_key : List Kind
number_key = dictionary ∷ string ∷ integer ∷ integer ∷ integer ∷ []

check_keys_first_example : check_keys number_key (4 ∷ 1 ∷ 1 ∷ 1 ∷ 1 ∷ []) 2 1 ≡ some true
check_keys_first_example =
    check_keys_first number_key (4 ∷ 1 ∷ 1 ∷ 1 ∷ 1 ∷ []) 2 1 integer refl refl refl

abbrev after_integer : Parser
after_integer = record {
  spans = (b'4' ∷ b'2' ∷ []) ∷ [];
  lengths = 2 ∷ [];
  kinds = integer ∷ [];
  parent = 18446744073709551615;
}

abbrev after_list : Parser
after_list = record {
  spans = [] ∷ (b'1' ∷ []) ∷ [];
  lengths = 1 ∷ 1 ∷ [];
  kinds = array ∷ integer ∷ [];
  parent = 18446744073709551615;
}

parse_integer_run :
    parse 1 start (b'i' ∷ b'4' ∷ b'2' ∷ b'e' ∷ []) ≡ returns no_error after_integer []
unfolding parse
parse_integer_run = refl

-- `li1ee`
abbrev tail : List ℕ
tail = b'i' ∷ b'1' ∷ b'e' ∷ b'e' ∷ []

parse_lem_example : Post 5 (parse 11 start (b'l' ∷ tail))
parse_lem_example =
    parse_lem 11 start b'l' tail start-IsParallel (refl, (refl, (refl, (refl, (refl, tt)))))
      (omega arith)

parse_list_run : parse 11 start (b'l' ∷ tail) ≡ returns no_error after_list []
unfolding parse
parse_list_run = refl
