-- ===== src/Pg/Str/Append.antt =====
-- Appending to a string.
use c_fs_subscriber.Base.{
  leb, lt→ltb, le→ltb, le→leb, Bool-cases, length, get_elem?, take, drop, replicate, length-append,
  length-replicate, length-take, length-drop, take_length-append, drop_length-append, drop-drop,
  take-append, take-take, ℕ, ◌+◌, ◌-◌, ◌≤◌, min, ◌≡◌, refl, sym, ap, ap₂, ◌∙◌, inl, inr, some, [],
  ◌∷◌, ◌++◌, append-nil, append_assoc, arith, dec_lt,
}
use c_fs_subscriber.Pg.Span.{Span}
use c_fs_subscriber.Pg.Str.{
  Str, text, write, heap_realloc, make_space_for, available_space, append_length,
}

-- The bytes are as many as the capacity says and one more, and a 0 stands behind the text.
pub record IsValid (s : Str) : Type 0 where
  pub size : length s.buffer ≡ s.capacity + 1
  pub fits : s.length ≤ s.capacity
  pub terminated : get_elem? s.buffer s.length ≡ some 0

-- Room for more bytes, in a string with the same text.
record HasSpace (s s' : Str) (n : ℕ) : Type 0 where
  same_length : s'.length ≡ s.length
  room : s.length + n ≤ s'.capacity
  size : length s'.buffer ≡ s'.capacity + 1
  same_text : take s.length s'.buffer ≡ take s.length s.buffer

pub write_some :
    (b : Span) (i : ℕ) (bytes : Span)
    → i + length bytes ≤ length b
    → write b i bytes ≡ some (take i b ++ (bytes ++ drop (i + length bytes) b))
unfolding write
write_some b i bytes h = rw (le→leb (i + length bytes) (length b) h) refl

make_space_for_lem : (s : Str) (n : ℕ) → IsValid s → HasSpace s (make_space_for s n) n
unfolding make_space_for available_space heap_realloc
make_space_for_lem s n v = elim (Bool-cases (leb n (available_space s))) [
  | inl a ↦ rw a (record {
    same_length = refl;
    room = ground (arith, v.fits);
    size = v.size;
    same_text = refl;
  })
  | inr a ↦ rw a (record {
    same_length = refl;
    room = omega arith;
    size = (omega (arith, sizes, v.size, v.fits));
    same_text = kept;
  })
]
  where
    zeros : Span
    zeros = replicate (s.length + n + 1 - (s.length + 1)) 0

    sizes :
        length (take (s.length + 1) s.buffer ++ zeros)
        ≡ min (s.length + 1) (length s.buffer) + (s.length + n + 1 - (s.length + 1))
    sizes =
        length-append (take (s.length + 1) s.buffer) zeros
        ∙ ap₂ (λ a b. a + b) (length-take (s.length + 1) s.buffer)
            (length-replicate (s.length + n + 1 - (s.length + 1)) 0)

    kept : take s.length (take (s.length + 1) s.buffer ++ zeros) ≡ take s.length s.buffer
    kept =
        take-append s.length (take (s.length + 1) s.buffer) zeros
          (omega (arith, length-take (s.length + 1) s.buffer, v.size, v.fits))
        ∙ take-take s.length (s.length + 1) s.buffer (omega arith)

get_elem?-end : (p d : Span) (x : ℕ) → get_elem? (p ++ (x ∷ d)) (length p) ≡ some x
get_elem?-end [] d x = refl
get_elem?-end (y ∷ p) d x = get_elem?-end p d x

-- the terminator, behind the bytes `p`
write_end :
    (p d : Span) (j : ℕ)
    → 1 ≤ length d
    → j ≡ length p
    → write (p ++ d) j (0 ∷ []) ≡ some (p ++ (0 ∷ drop 1 d))
write_end p d j h e = rw e (
    write_some (p ++ d) (length p) (0 ∷ []) (omega (arith, length-append p d))
    ∙ ap₂ (λ x y. some (x ++ (0 ∷ y))) (take_length-append p d)
        (sym (drop-drop 1 (length p) (p ++ d)) ∙ ap (drop 1) (drop_length-append p d)))

-- A text that replaces the bytes from `i` on, and a 0 behind it.
record Ends (b b' p : Span) : Type 0 where
  size : length b' ≡ length b
  text : take (length p) b' ≡ p
  zero_behind : get_elem? b' (length p) ≡ some 0

write_terminated :
    (b : Span) (i : ℕ) (bytes : Span)
    → i + length bytes + 1 ≤ length b
    → (b1 : Span) × (b2 : Span) × (write b i bytes ≡ some b1)
      × (write b1 (i + length bytes) (0 ∷ []) ≡ some b2)
      × Ends b b2 (take i b ++ bytes)
write_terminated b i bytes h =
    let p = take i b ++ bytes in
    let d = drop (i + length bytes) b in
    let at : length p ≡ i + length bytes =
      omega (arith, length-append (take i b) bytes, length-take i b) in
    let rest : length d ≡ length b - (i + length bytes) = length-drop (i + length bytes) b in
    (
      p ++ d,
      p ++ (0 ∷ drop 1 d),
      write_some b i bytes (omega arith) ∙ ap some (sym (append_assoc (take i b) bytes d)),
      write_end p d (i + length bytes) (omega arith) (sym at),
      record {
        size = omega (arith, length-append p (0 ∷ drop 1 d), length-drop 1 d);
        text = take_length-append p (0 ∷ drop 1 d);
        zero_behind = get_elem?-end p (drop 1 d) 0;
      },
    )

nothing : {t : Span} (other : Span) → length other ≤ 0 → t ≡ t ++ other
nothing {t} [] h = sym (append-nil t)
nothing (x ∷ other) h = absurd (omega arith)

-- Appending bytes to a string succeeds, and the text of the result is the text with the bytes behind it; the
-- string stays well-formed: its bytes are one more than its capacity, and a 0 stands behind the text.
pub append_length_lem :
    (s : Str) (other : Span)
    → IsValid s
    → (s' : Str) × (append_length s other ≡ some s') × IsValid s' × (text s' ≡ text s ++ other)
unfolding append_length
append_length_lem s other v = elim (dec_lt 0 (length other)) [
  | yes h ↦
      let s1 = make_space_for s (length other) in
      let sp = make_space_for_lem s (length other) v in
      let (b1, b2, w1, w2, e) =
        write_terminated s1.buffer s.length other (omega (arith, sp.room, sp.size)) in
      let at : length (take s.length s1.buffer ++ other) ≡ s.length + length other = omega (
        arith,
        length-append (take s.length s1.buffer) other,
        length-take s.length s1.buffer,
        sp.room,
        sp.size,
      ) in
      rw (lt→ltb 0 (length other) h, w1, w2)
        (
          record { buffer = b2; length = s.length + length other; capacity = s1.capacity },
          refl,
          record {
            size = e.size ∙ sp.size;
            fits = sp.room;
            terminated = ap (get_elem? b2) (sym at) ∙ e.zero_behind;
          },
          ap (λ n. take n b2) (sym at) ∙ e.text ∙ ap (λ t. t ++ other) sp.same_text,
        )
  | no h ↦ rw (le→ltb 0 (length other) (omega arith)) (s, refl, v, (nothing other (omega arith)))
]
