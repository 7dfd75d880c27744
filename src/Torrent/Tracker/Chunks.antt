-- ===== src/Torrent/Tracker/Chunks.antt =====
-- What `tracker_on_response_chunk` tells libcurl of a part of the answer.
use c_fs_subscriber.Base.{lt→ltb, le→ltb, length, length-append, ◌+◌, ◌≤◌, ◌≡◌, ◌↔◌, arith, dec_lt}
use c_fs_subscriber.Pg.Span.{Span}
use c_fs_subscriber.Torrent.Tracker.{on_response_chunk}

-- The answer that is kept stays below 64 KiB.
on_response_chunk-length :
    (response chunk : Span)
    → length response ≤ 65535
    → length (on_response_chunk response chunk).1 ≤ 65535
unfolding on_response_chunk
on_response_chunk-length response chunk l = elim (dec_lt 65535 (length response + length chunk)) [
  | yes h ↦ rw (lt→ltb 65535 (length response + length chunk) h) l
  | no h ↦
      rw (le→ltb 65535 (length response + length chunk) (omega arith))
        (omega (arith, length-append response chunk))
]

-- With an answer of at most 65535 bytes so far: the callback returns the number of the bytes that it was
-- given, which is how libcurl knows that they were taken, exactly where the answer was empty before and
-- the bytes are at most 65535. The answer never gets longer than 65535 bytes.
pub on_response_chunk_lem :
    (response chunk : Span)
    → length response ≤ 65535
    → (((on_response_chunk response chunk).0 ≡ length chunk)
        ↔ ((length response ≡ 0) × (length chunk ≤ 65535)))
      × (length (on_response_chunk response chunk).1 ≤ 65535)
unfolding on_response_chunk
on_response_chunk_lem response chunk l = (
  elim (dec_lt 65535 (length response + length chunk)) [
    | yes h ↦
        rw (lt→ltb 65535 (length response + length chunk) h)
          (λ e. absurd (omega arith), λ k. absurd (omega arith))
    | no h ↦
        rw (le→ltb 65535 (length response + length chunk) (omega arith))
          (λ e. (omega arith, omega arith), λ k. omega arith)
  ],
  on_response_chunk-length response chunk l,
)
