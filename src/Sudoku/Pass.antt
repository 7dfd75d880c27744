-- ===== src/Sudoku/Pass.antt =====
-- The loop of the first pass over the values of an empty cell.
use c_fs_subscriber.Base.{
  lt→ltb, get_or, set, length-set, get_or-set_self, get_or-set_ne, ℕ, zero, suc, ◌+◌, ◌*◌, ◌≤◌, ◌<◌,
  ◌≡◌, refl, ◌∙◌, subst, ◌≢◌, inl, inr, some, List, arith, ℕ_discrete,
}
use c_fs_subscriber.Sudoku.Count.{count, IsGrid}
use c_fs_subscriber.Sudoku.Units.{part_of, part_of-lt}
use c_fs_subscriber.Sudoku.Solution.{IsSolved, Extends, Extends-Clean}
use c_fs_subscriber.Sudoku.Step.{set-IsGrid, set-Extends, is_dead_end_lem}
use c_fs_subscriber.Sudoku.{offer}
use c_fs_subscriber.Sudoku.Search.{IsOffer}

-- The possibilities of cells other than `i` are the same.
abbrev pub SameBut : ℕ → List ℕ → List ℕ → Type 0
SameBut i ps ps' =
    (q v : ℕ) → q ≢ i → 0 < v → v ≤ 9 → get_or ps' (q * 9 + v) 0 ≡ get_or ps (q * 9 + v) 0

set-IsOffer : (ps : List ℕ) (k j : ℕ) → IsOffer ps → k < 810 → j ≤ 9 → IsOffer (set ps k j)
set-IsOffer ps k j o l small = record {
  size = length-set ps k j ∙ o.size;
  digits = λ q. elim (ℕ_discrete k q) [
    | yes e ↦
        subst (λ t. get_or (set ps k j) t 0 ≤ 9) e
          (omega (arith, get_or-set_self ps k j 0 (omega (arith, o.size))))
    | no e ↦ omega (arith, get_or-set_ne ps {i = k} {j = q} j 0 e, o.digits q)
  ];
}

set-SameBut : (i j : ℕ) (ps : List ℕ) → 0 < j → j ≤ 9 → SameBut i ps (set ps (i * 9 + j) j)
set-SameBut i j ps pos small q v other p m =
    get_or-set_ne ps {i = i * 9 + j} {j = q * 9 + v} j 0 (λ e. other (omega arith))

SameBut-trans : (i : ℕ) (a b c : List ℕ) → SameBut i a b → SameBut i b c → SameBut i a c
SameBut-trans i a b c x y q v other p m = y q v other p m ∙ x q v other p m

module _ (grid s : List ℕ) (i : ℕ) (l : i < 81) (g : IsGrid grid) (solved : IsSolved s)
    (x : Extends grid s) where
  -- The values below `j` have been looked at: the value of the solution is offered, if it is one of them,
  -- and where it is the only one it is the last.
  pub record Tracks (j : ℕ) (ps : List ℕ) (count last : ℕ) : Type 0 where
    pub is_offer : IsOffer ps
    pub few : count + 1 ≤ j
    pub reached : get_or s i 0 < j → get_or ps (i * 9 + get_or s i 0) 0 ≡ get_or s i 0
    pub counted : get_or s i 0 < j → 1 ≤ count
    pub only : get_or s i 0 < j → count ≡ 1 → last ≡ get_or s i 0
    pub last_digit : 0 < count → (0 < last) × (last ≤ 9)

  Tracks-dead :
      (j : ℕ) (ps : List ℕ) (count last : ℕ)
      → Tracks j ps count last
      → get_or s i 0 ≢ j
      → Tracks (j + 1) ps count last
  Tracks-dead j ps count last t other = record {
    is_offer = t.is_offer;
    few = omega (arith, t.few);
    reached = λ h. t.reached (omega arith);
    counted = λ h. t.counted (omega arith);
    only = λ h. t.only (omega arith);
    last_digit = t.last_digit;
  }

  Tracks-alive :
      (j : ℕ) (ps : List ℕ) (count last : ℕ)
      → Tracks j ps count last
      → 0 < j
      → j ≤ 9
      → Tracks (j + 1) (set ps (i * 9 + j) j) (count + 1) j
  Tracks-alive j ps count last t pos small = record {
    is_offer = set-IsOffer ps (i * 9 + j) j t.is_offer (omega arith) small;
    few = omega (arith, t.few);
    reached = λ h. elim (ℕ_discrete j (get_or s i 0)) [
      | yes e ↦
          subst (λ v. get_or (set ps (i * 9 + j) j) (i * 9 + v) 0 ≡ v) e
            (get_or-set_self ps (i * 9 + j) j 0 (omega (arith, t.is_offer.size)))
      | no e ↦
          get_or-set_ne ps {i = i * 9 + j} {j = i * 9 + get_or s i 0} j 0 (λ z. e (omega arith))
          ∙ t.reached (omega arith)
    ];
    counted = λ h. omega arith;
    only = λ h one. elim (ℕ_discrete j (get_or s i 0)) [
      | yes e ↦ e
      | no e ↦ absurd (omega (arith, t.counted (omega arith)))
    ];
    last_digit = λ h. (pos, small);
  }

  -- The loop over the values `j`, ..., 9 ends and fails no assertion.
  pub offer_lem :
      (n j : ℕ) (ps : List ℕ) (count last : ℕ)
      → j + n ≡ 10
      → 0 < j
      → Tracks j ps count last
      → (ps' : List ℕ) × (count' : ℕ) × (last' : ℕ) × (offer grid i n j (ps, count, last)
          ≡ some (ps', count', last'))
        × Tracks 10 ps' count' last'
        × SameBut i ps ps'
  unfolding offer
  offer_lem zero j ps count last e pos t = (
    ps,
    count,
    last,
    refl,
    subst (λ k. Tracks k ps count last) (omega arith) t,
    λ q v o p m. refl,
  )
  offer_lem (suc n) j ps count last e pos t =
      elim (is_dead_end_lem (set grid i j) i (set-IsGrid grid i j g l (omega arith)) l) [
        | inr (dead, bad) ↦
            let other : get_or s i 0 ≢ j = λ h. bad (λ a.
              Extends-Clean (set grid i j) s (set-Extends grid s i j x h g.size l) solved.clean a
                (part_of a i) (part_of-lt a i l)) in
            let (ps', count', last', run, t', same) =
              offer_lem n (j + 1) ps count last (omega arith) (omega arith)
                (Tracks-dead j ps count last t other) in
            (ps', count', last', rw dead run, t', same)
        | inl (alive, clean) ↦
            let (ps', count', last', run, t', same) =
              offer_lem n (j + 1) (set ps (i * 9 + j) j) (count + 1) j (omega arith) (omega arith)
                (Tracks-alive j ps count last t pos (omega arith)) in
            (
              ps',
              count',
              last',
              rw (alive, lt→ltb (i * 9 + j) 810 (omega arith)) run,
              t',
              SameBut-trans i ps (set ps (i * 9 + j) j) ps' (set-SameBut i j ps pos (omega arith))
                  same,
            )
      ]
