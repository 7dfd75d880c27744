-- ===== src/Torrent/Tracker/Transfer.antt =====
-- Asking the tracker for peers (`tracker_fetch_peers` of torrent/tracker.h). libcurl is a parameter.
use c_fs_subscriber.Base.{if◌then◌else◌, ℕ, Bool, not, Option, none, some, []}
use c_fs_subscriber.Pg.Span.{Span}
use c_fs_subscriber.Pg.Str.{Str}
use c_fs_subscriber.Torrent.Bencode
use c_fs_subscriber.Torrent.Bencode.{Parser, Outcome, parse}
use c_fs_subscriber.Torrent.Tracker.{
  TrackerError, curl_error, bencode_parse, Addresses, parse_peer_addresses, on_response_chunk,
}
use c_fs_subscriber.Torrent.Tracker.Query.{Query, until_nul, build_url_from_query}

-- An error with the addresses; a failed `assert` or an access outside of an array; or no fuel left.
pub data Fetched : Type 0 where
  fetched : TrackerError → Addresses → Fetched
  stops out_of_fuel : Fetched

-- the end of `tracker_fetch_peers`, with what `bc_parse` returns
unfoldable pub fetch_result : Outcome → Addresses → Fetched
fetch_result Outcome.stops addrs = stops
fetch_result Outcome.out_of_fuel addrs = out_of_fuel
fetch_result (Outcome.returns Bencode.no_error p rest) addrs = elim (parse_peer_addresses p addrs) [
  | none ↦ stops
  | some (err, addrs') ↦ fetched err addrs'
]
fetch_result (Outcome.returns _ p rest) addrs = fetched bencode_parse addrs

-- `bc_parser_t parser = {0}`, and `bc_parser_init`
abbrev pub empty_parser : Parser
empty_parser = record { spans = []; lengths = []; kinds = []; parent = 0 }

-- `curl_easy_perform` with the url, the callback and the answer so far: if it is `CURLE_OK`, and the answer
abbrev pub Perform : Type 0
Perform = Span → (Span → Span → ℕ × Span) → Span → Bool × Span

-- what `tracker_fetch_peers` does once libcurl is done
unfoldable pub after_perform : ℕ → Addresses → Bool × Span → Fetched
after_perform fuel addrs (ok, response) =
    if not ok
    then fetched curl_error addrs
    else fetch_result (parse fuel empty_parser response) addrs

-- `tracker_fetch_peers` with its url
unfoldable pub fetch_from : Perform → ℕ → Addresses → Option Str → Fetched
fetch_from perform fuel addrs none = stops
fetch_from perform fuel addrs (some url) =
    after_perform fuel addrs (perform (until_nul url.buffer) on_response_chunk [])

-- The fuel is that of `bc_parse`.
unfoldable pub fetch_peers : Perform → ℕ → Query → Addresses → Fetched
fetch_peers perform fuel q addrs = fetch_from perform fuel addrs (build_url_from_query q)
