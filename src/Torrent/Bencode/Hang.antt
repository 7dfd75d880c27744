-- ===== src/Torrent/Bencode/Hang.antt =====
-- The case of `bc_parse` for a NUL byte, inside a list.
use c_fs_subscriber.Base.{ℕ, zero, suc, ◌≡◌, refl, true, [], ◌∷◌}
use c_fs_subscriber.Pg.Span.{Span}
use c_fs_subscriber.Torrent.Bencode.Shape.{
  IsParallel, IsParallel-is_parallel, begin_container-IsParallel,
}
use c_fs_subscriber.Torrent.Bencode.{
  Parser, out_of_fuel, begin_container, array, parse, parse_items, is_parallel,
}

parse-nul :
    (f : ℕ) (p : Parser) (s : Span) → is_parallel p ≡ true → parse_items f p (0 ∷ s) ≡ out_of_fuel
unfolding parse parse_items
parse-nul zero p s h = refl
parse-nul (suc zero) p s h = refl
parse-nul (suc (suc f)) p s h = rw h (parse-nul (suc f) p s h)

-- In a list whose first item begins with a NUL byte, a parser with parallel arrays runs out of any
-- fuel: it never returns, whatever follows.
pub parse-list_nul :
    (f : ℕ) (p : Parser) (s : Span) → IsParallel p → parse f p (b'l' ∷ 0 ∷ s) ≡ out_of_fuel
unfolding parse
parse-list_nul zero p s h = refl
parse-list_nul (suc f) p s h =
    let inside = IsParallel-is_parallel (begin_container-IsParallel [] array h) in
    rw (IsParallel-is_parallel h, parse-nul f (begin_container [] array p) s inside) refl
