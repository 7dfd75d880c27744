-- ===== src/Sudoku/First.antt =====
-- The first pass over the cells keeps the solutions of the grid.
use c_fs_subscriber.Base.{
  ltb, leb, ◌==◌, if◌then◌else◌, lt→ltb, le→ltb, le→leb, get_elem?, get_or, set,
  get_elem?-eq-get_or, get_or-set_self, get_or-set_ne, ◌>>=◌, ◌>>◌, assert, ℕ, zero, suc, ◌+◌, ◌*◌,
  ◌≤◌, ◌<◌, ◌≡◌, refl, sym, ap, ◌∙◌, subst, false, Option, some, List, arith, dec_lt, ℕ_discrete,
}
use c_fs_subscriber.Sudoku.Count.{count, IsGrid}
use c_fs_subscriber.Sudoku.Solution.{IsSolved, Extends}
use c_fs_subscriber.Sudoku.Step.{set-IsGrid, set-Extends, Extends-set}
use c_fs_subscriber.Sudoku.{offer}
use c_fs_subscriber.Sudoku.Search.{IsOffer}
use c_fs_subscriber.Sudoku.{first_pass, pass_cell}
use c_fs_subscriber.Sudoku.Pass.{SameBut, Tracks, offer_lem}

pub Extends-trans :
    (a b c : List ℕ)
    → ((p : ℕ) → p < 81 → 0 < get_or a p 0 → get_or b p 0 ≡ get_or a p 0)
    → Extends b c
    → Extends a c
Extends-trans a b c x y p l pos = y p l (omega (arith, x p l pos)) ∙ x p l pos

module _ (s : List ℕ) (solved : IsSolved s) where
  -- The cells below `i` have been looked at.
  pub record Passed (i : ℕ) (grid ps : List ℕ) : Type 0 where
    pub digits : IsGrid grid
    pub extends : Extends grid s
    pub is_offer : IsOffer ps
    pub offered :
        (q : ℕ) → q < i → get_or grid q 0 ≡ 0 → get_or ps (q * 9 + get_or s q 0) 0 ≡ get_or s q 0

  abbrev pub Passes : List ℕ → Option (List ℕ × List ℕ) → Type 0
  Passes grid r =
      (grid' : List ℕ) × (ps' : List ℕ) × (r ≡ some (grid', ps'))
      × Passed 81 grid' ps'
      × Extends grid grid'

  Passed-step :
      (i : ℕ) (grid ps : List ℕ)
      → Passed i grid ps
      → (get_or grid i 0 ≡ 0 → get_or ps (i * 9 + get_or s i 0) 0 ≡ get_or s i 0)
      → Passed (i + 1) grid ps
  Passed-step i grid ps p h = record {
    digits = p.digits;
    extends = p.extends;
    is_offer = p.is_offer;
    offered = λ q l blank. elim (ℕ_discrete i q) [
      | yes e ↦
          subst (λ t. get_or grid t 0 ≡ 0 → get_or ps (t * 9 + get_or s t 0) 0 ≡ get_or s t 0) e h
            blank
      | no e ↦ p.offered q (omega arith) blank
    ];
  }

  -- other possibilities, that are the same but for cell `i`
  Passed-offer :
      (i : ℕ) (grid ps ps' : List ℕ)
      → Passed i grid ps
      → i < 81
      → IsOffer ps'
      → SameBut i ps ps'
      → Passed i grid ps'
  Passed-offer i grid ps ps' p l o same = record {
    digits = p.digits;
    extends = p.extends;
    is_offer = o;
    offered = λ q m blank.
        same q (get_or s q 0) (λ e. omega arith) (solved.filled q (omega arith))
          (solved.digits.digits q)
        ∙ p.offered q m blank;
  }

  Passed-set :
      (i : ℕ) (grid ps : List ℕ)
      → Passed i grid ps
      → i < 81
      → Passed (i + 1) (set grid i (get_or s i 0)) ps
  Passed-set i grid ps p l = record {
    digits = set-IsGrid grid i (get_or s i 0) p.digits l (solved.digits.digits i);
    extends = set-Extends grid s i (get_or s i 0) p.extends refl p.digits.size l;
    is_offer = p.is_offer;
    offered = λ q m blank. elim (ℕ_discrete i q) [
      | yes e ↦ absurd (
          subst (λ t. get_or (set grid i (get_or s i 0)) t 0 ≡ 0 → ⊥) e
            (λ z. omega (
              arith,
              get_or-set_self grid i (get_or s i 0) 0 (omega (arith, p.digits.size)),
              solved.filled i l,
            ))
            blank)
      | no e ↦
          p.offered q (omega arith)
            (sym (get_or-set_ne grid {i = i} {j = q} (get_or s i 0) 0 e) ∙ blank)
    ];
  }

  read_blank :
      (i : ℕ) (grid ps : List ℕ)
      → i < 81
      → IsGrid grid
      → get_or grid i 0 ≡ 0
      → pass_cell grid ps i ≡ (
          offer grid i 9 1 (ps, 0, 0) >>= λ (found, count, last).
          assert (leb 1 count)
          >> (assert (leb count 9)
              >> (if ltb 1 count
                  then some (grid, found)
                  else (assert (ltb 0 last)
                      >> (assert (leb last 9) >> some (set grid i last, found))))))
  unfolding pass_cell
  read_blank i grid ps l g blank =
      let read : get_elem? grid i ≡ some 0 =
        get_elem?-eq-get_or grid i 0 (omega (arith, g.size)) ∙ ap some blank in
      rw read refl

  begin :
      (i : ℕ) (grid ps : List ℕ) (l : i < 81) (p : Passed i grid ps)
      → Tracks grid s i l p.digits solved p.extends 1 ps 0 0
  begin i grid ps l p = record {
    is_offer = p.is_offer;
    few = omega arith;
    reached = λ h. absurd (omega (arith, solved.filled i l));
    counted = λ h. absurd (omega (arith, solved.filled i l));
    only = λ h z. absurd (omega (arith, solved.filled i l));
    last_digit = λ h. absurd (omega arith);
  }

  -- The first pass leaves a cell that has only one possibility with the value of the solution.
  pass_cell_lem :
      (i : ℕ) (grid ps : List ℕ)
      → i < 81
      → Passed i grid ps
      → (grid' : List ℕ) × (ps' : List ℕ) × (pass_cell grid ps i ≡ some (grid', ps'))
        × Passed (i + 1) grid' ps'
        × Extends grid grid'
  unfolding pass_cell
  pass_cell_lem i grid ps l p =
      let read = get_elem?-eq-get_or grid i 0 (omega (arith, p.digits.size)) in
      let small = p.digits.digits i in
      elim (dec_lt 0 (get_or grid i 0)) [
        | yes h ↦
            let given : (get_or grid i 0 == 0) ≡ false = ground arith in
            (
              grid,
              ps,
              rw (read, le→leb (get_or grid i 0) 9 small, given) refl,
              Passed-step i grid ps p (λ z. absurd (omega arith)),
              λ q m k. refl,
            )
        | no h ↦
            let blank : get_or grid i 0 ≡ 0 = omega arith in
            let (ps', count', last', run, t, same) =
              offer_lem grid s i l p.digits solved p.extends 9 1 ps 0 0 refl (omega arith)
                (begin i grid ps l p) in
            let value = solved.digits.digits i in
            let one = t.counted (omega arith) in
            let most : count' ≤ 9 = omega (arith, t.few) in
            let passed = Passed-offer i grid ps ps' p l t.is_offer same in
            elim (dec_lt 1 count') [
              | yes many ↦ (
                grid,
                ps',
                read_blank i grid ps l p.digits blank
                    ∙ rw (run, le→leb 1 count' one, le→leb count' 9 most, lt→ltb 1 count' many)
                        refl,
                Passed-step i grid ps' passed (λ z. t.reached (omega arith)),
                λ q m k. refl,
              )
              | no few ↦
                  let last = t.only (omega arith) (omega arith) in
                  let digit = t.last_digit (omega arith) in
                  (
                    set grid i (get_or s i 0),
                    ps',
                    read_blank i grid ps l p.digits blank
                        ∙ rw
                            (
                              run,
                              le→leb 1 count' one,
                              le→leb count' 9 most,
                              le→ltb 1 count' (omega arith),
                              lt→ltb 0 last' digit.0,
                              le→leb last' 9 digit.1,
                              last,
                            )
                            refl,
                    Passed-set i grid ps' passed l,
                    Extends-set grid (set grid i (get_or s i 0)) i (get_or s i 0) blank
                        (λ q m k. refl),
                  )
            ]
      ]

  pub first_pass_lem :
      (n i : ℕ) (grid ps : List ℕ)
      → i + n ≡ 81
      → Passed i grid ps
      → Passes grid (first_pass grid ps n i)
  unfolding first_pass
  first_pass_lem zero i grid ps e p =
      (grid, ps, refl, subst (λ k. Passed k grid ps) (omega arith) p, λ q l h. refl)
  first_pass_lem (suc n) i grid ps e p =
      let (grid', ps', run, p', x) = pass_cell_lem i grid ps (omega arith) p in
      let (grid'', ps'', run', p'', x') = first_pass_lem n (i + 1) grid' ps' (omega arith) p' in
      (grid'', ps'', rw run run', p'', Extends-trans grid grid' grid'' x x')
