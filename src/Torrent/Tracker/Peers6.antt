-- ===== src/Torrent/Tracker/Peers6.antt =====
-- The loop over a value of `peers6` leaves the value.
use c_fs_subscriber.Base.{
  le→leb, lt→leb, length, take, drop, length-append, ℕ, zero, suc, ◌+◌, ◌*◌, ◌/◌, ◌%◌, ◌≤◌, ◌<◌,
  ◌≡◌, refl, none, some, List, [], ◌∷◌, ◌++◌, arith, dec_lt,
}
use c_fs_subscriber.Pg.Span.{Span}
use c_fs_subscriber.Torrent.Tracker.{Address, load, peers6_loop}

loads_inside : (s : Span) (j n : ℕ) → j + n ≤ length s → load s j n ≡ some (take n (drop j s))
unfolding load
loads_inside s j n h = rw (le→leb (j + n) (length s) h) refl

overruns : (s : Span) (j n : ℕ) → length s < j + n → load s j n ≡ none
unfolding load
overruns s j n h = rw (lt→leb (j + n) (length s) h) refl

-- with the rounds that are left, which end at the end of the value
peers6_loop-rest :
    (s : Span) (n j : ℕ) (addrs : List Address)
    → length s ≤ 17 * 18
    → 0 < n
    → j + 6 * n ≡ length s
    → 6 * length addrs ≡ j
    → peers6_loop s n j addrs ≡ none
unfolding peers6_loop
peers6_loop-rest s zero j addrs small pos e c = absurd (omega arith)
peers6_loop-rest s (suc n) j addrs small pos e c = elim (dec_lt (length s) (j + 18)) [
  | yes h ↦ rw (overruns s (j + 16) 2 (omega arith)) refl
  | no h ↦
      let a : Address = record { ip = take 16 (drop j s); port = take 2 (drop (j + 16) s) } in
      let grown : length (addrs ++ (a ∷ [])) ≡ length addrs + 1 = length-append addrs (a ∷ []) in
      rw
        (
          loads_inside s (j + 16) 2 (omega arith),
          loads_inside s j 16 (omega arith),
          lt→leb 50 (length (addrs ++ (a ∷ []))) (omega arith),
        )
        (peers6_loop-rest s n (j + 6) (addrs ++ (a ∷ [])) small (omega arith) (omega arith)
          (omega arith))
]

-- Where a value of `peers6` has the length of at least one and at most 17 addresses, the loop over it
-- reads behind its end: it advances by 6 bytes, while an address has 18.
pub peers6_loop_overread :
    (s : Span)
    → length s % 18 ≡ 0
    → 0 < length s
    → length s ≤ 17 * 18
    → peers6_loop s (length s / 6) 0 [] ≡ none
peers6_loop_overread s whole pos small =
    peers6_loop-rest s (length s / 6) 0 [] small (omega arith) (omega arith) refl
