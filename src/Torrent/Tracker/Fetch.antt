-- ===== src/Torrent/Tracker/Fetch.antt =====
-- Asking the tracker, with an answer in parts.
use c_fs_subscriber.Base.{
  ◌==◌, if◌then◌else◌, le→ltb, eq→==, ne→==, length, ℕ, ◌+◌, ◌≤◌, ◌<◌, ◌≡◌, refl, ap, Bool, true,
  false, List, [], ◌∷◌, arith,
}
use c_fs_subscriber.Pg.Span.{Span}
use c_fs_subscriber.Torrent.Bencode.{parse}
use c_fs_subscriber.Torrent.Tracker.{Addresses, curl_error, on_response_chunk}
use c_fs_subscriber.Torrent.Tracker.Query.{Query, until_nul}
use c_fs_subscriber.Torrent.Tracker.Transfer.{
  Fetched, fetched, fetch_result, fetch_peers, empty_parser, Perform, fetch_from, after_perform,
}
use c_fs_subscriber.Torrent.Tracker.Chunks.{on_response_chunk_lem}
use c_fs_subscriber.Torrent.Tracker.Url.{build_url_from_query_lem}

-- What libcurl documents of `CURLOPT_WRITEFUNCTION`, for an answer that comes in these parts: the callback
-- gets one after the other, and one for which it does not return the number of its bytes is an error.
abbrev pub hand_over : (Span → Span → ℕ × Span) → Span → List Span → Bool × Span
hand_over callback response [] = (true, response)
hand_over callback response (c ∷ cs) =
    let (n, response') = callback response c in
    let rest = hand_over callback response' cs in if n == length c then rest else (false, response')

abbrev pub fetched_parts : Span → List Span → ℕ → Addresses → Fetched
fetched_parts a [] fuel addrs = fetch_result (parse fuel empty_parser a) addrs
fetched_parts a (b ∷ parts) fuel addrs = fetched curl_error addrs

first_part : (a : Span) → length a ≤ 65535 → on_response_chunk [] a ≡ (length a, a)
unfolding on_response_chunk
first_part a h = rw (le→ltb 65535 (0 + length a) (omega arith)) (ap (λ n. (n, a)) (omega arith))

next_part :
    (a b : Span) → 0 < length a → length a ≤ 65535 → ((on_response_chunk a b).0 == length b) ≡ false
next_part a b pos h =
    ne→== (on_response_chunk a b).0 (length b)
      (λ e. let k = (on_response_chunk_lem a b h).0.0 e in omega (arith, k.0, pos))

hand_over-parts :
    (a : Span) (parts : List Span) (fuel : ℕ) (addrs : Addresses) (run : Bool × Span → Fetched)
    → 0 < length a
    → length a ≤ 65535
    → ((r : Span) → run (true, r) ≡ fetch_result (parse fuel empty_parser r) addrs)
    → ((r : Span) → run (false, r) ≡ fetched curl_error addrs)
    → run (hand_over on_response_chunk [] (a ∷ parts)) ≡ fetched_parts a parts fuel addrs
hand_over-parts a [] fuel addrs run pos h ok bad =
    rw (first_part a h, eq→== (length a) (length a) refl) (ok a)
hand_over-parts a (b ∷ parts) fuel addrs run pos h ok bad =
    rw (first_part a h, eq→== (length a) (length a) refl, next_part a b pos h)
      (bad (on_response_chunk a b).1)

-- Asking a tracker with a url of less than 4196 bytes, where the answer comes in parts, the first of 1 to
-- 65535 bytes: if that is the only one, the result is what its bytes say as bencode; if more parts follow,
-- whatever they are, it is `TK_ERR_CURL`, and there are no new addresses.
pub fetch_peers_parts :
    (perform : Perform) (q : Query) (fuel : ℕ) (addrs : Addresses) (a : Span) (parts : List Span)
    → ((url : Span) (callback : Span → Span → ℕ × Span) (response : Span)
        → perform url callback response ≡ hand_over callback response (a ∷ parts))
    → length q.url < 4196
    → length q.info_hash ≡ 20
    → 0 < length a
    → length a ≤ 65535
    → fetch_peers perform fuel q addrs ≡ fetched_parts a parts fuel addrs
unfolding fetch_peers fetch_from after_perform
fetch_peers_parts perform q fuel addrs a parts curl u h pos small =
    let (r, e, shows) = build_url_from_query_lem q u h in
    rw (e, curl (until_nul r.buffer) on_response_chunk [])
      (hand_over-parts a parts fuel addrs (after_perform fuel addrs) pos small (λ r. refl)
        (λ r. refl))
