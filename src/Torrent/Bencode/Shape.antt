-- ===== src/Torrent/Bencode/Shape.antt =====
-- The lengths of the three arrays of `bc_parser_t`, against the `assert`s at the head of `bc_parse`.
use c_fs_subscriber.Base.{
  length, get_or, length-append, length-set, add64, ℕ, ◌≡◌, true, [], ◌∷◌, arith,
}
use c_fs_subscriber.Pg.Span.{Span}
use c_fs_subscriber.Torrent.Bencode.{
  Parser, Kind, count_child, append, begin_container, is_parallel,
}

pub record IsParallel (p : Parser) : Type 0 where
  pub spans_lengths : length p.spans ≡ length p.lengths
  pub lengths_kinds : length p.lengths ≡ length p.kinds

pub IsParallel-is_parallel : {p : Parser} → IsParallel p → is_parallel p ≡ true
IsParallel-is_parallel h = ground arith

pub count_child-IsParallel : {p : Parser} → IsParallel p → IsParallel (count_child p)
unfolding count_child
count_child-IsParallel {p} h =
    ground (arith, length-set p.lengths p.parent (add64 (get_or p.lengths p.parent 0) 1))

pub append-IsParallel :
    {p : Parser} (s : Span) (n : ℕ) (k : Kind) → IsParallel p → IsParallel (append s n k p)
unfolding append
append-IsParallel {p} s n k h = omega (
  arith,
  length-append p.spans (s ∷ []),
  length-append p.lengths (n ∷ []),
  length-append p.kinds (k ∷ []),
)

pub begin_container-IsParallel :
    {p : Parser} (s : Span) (k : Kind) → IsParallel p → IsParallel (begin_container s k p)
unfolding begin_container
begin_container-IsParallel {p} s k h =
    let a = append-IsParallel s 0 k (count_child-IsParallel h) in
    record { spans_lengths = a.spans_lengths; lengths_kinds = a.lengths_kinds }
