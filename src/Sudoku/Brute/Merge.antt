-- ===== src/Sudoku/Brute/Merge.antt =====
-- The cells of a grid that is merged with a filling, and of the fillings.
use c_fs_subscriber.Base.{
  ◌==◌, if◌then◌else◌, length, get_or, ℕ, zero, suc, ◌≤◌, ◌<◌, ◌≡◌, refl, sym, not, List, [], ◌∷◌,
  arith,
}
use c_fs_subscriber.Sudoku.Brute.{merge, first_solution}

pub length-merge : (g s : List ℕ) → length (merge g s) ≡ length g
unfolding merge
length-merge [] s = refl
length-merge (d ∷ g) [] = refl
length-merge (d ∷ g) (x ∷ s) = omega (arith, length-merge g s)

pub merge_at :
    (g s : List ℕ) (p : ℕ)
    → p < length g
    → p < length s
    → get_or (merge g s) p 0 ≡ (if not (get_or s p 0 == 0) then get_or s p 0 else get_or g p 0)
unfolding merge
merge_at [] s p l m = absurd (omega arith)
merge_at (d ∷ g) [] p l m = absurd (omega arith)
merge_at (d ∷ g) (x ∷ s) zero l m = refl
merge_at (d ∷ g) (x ∷ s) (suc p) l m = merge_at g s p (omega arith) (omega arith)

-- The values of a solution in the empty cells.
abbrev pub filling : List ℕ → List ℕ → List ℕ
filling [] s = []
filling (x ∷ g) [] = []
filling (x ∷ g) (y ∷ s) = (if x == 0 then y else 0) ∷ filling g s

pub length-filling : (g s : List ℕ) → length g ≡ length s → length (filling g s) ≡ length g
length-filling [] s e = refl
length-filling (x ∷ g) [] e = sym e
length-filling (x ∷ g) (y ∷ s) e = omega (arith, length-filling g s (omega arith))

pub filling_at :
    (g s : List ℕ) (p : ℕ)
    → p < length g
    → length g ≡ length s
    → get_or (filling g s) p 0 ≡ (if get_or g p 0 == 0 then get_or s p 0 else 0)
filling_at [] s p l e = absurd (omega arith)
filling_at (x ∷ g) [] p l e = absurd (omega arith)
filling_at (x ∷ g) (y ∷ s) zero l e = refl
filling_at (x ∷ g) (y ∷ s) (suc p) l e = filling_at g s p (omega arith) (omega arith)

pub length-first_solution : (g : List ℕ) → length (first_solution g) ≡ length g
unfolding first_solution
length-first_solution [] = refl
length-first_solution (x ∷ g) = omega (arith, length-first_solution g)

pub first_solution_at :
    (g : List ℕ) (p : ℕ)
    → p < length g
    → get_or (first_solution g) p 0 ≡ (if get_or g p 0 == 0 then 1 else 0)
unfolding first_solution
first_solution_at [] p l = absurd (omega arith)
first_solution_at (x ∷ g) zero l = refl
first_solution_at (x ∷ g) (suc p) l = first_solution_at g p (omega arith)

pub get_or-none : (s : List ℕ) (p : ℕ) → length s ≤ p → get_or s p 0 ≡ 0
get_or-none [] p l = refl
get_or-none (x ∷ s) zero l = absurd (omega arith)
get_or-none (x ∷ s) (suc p) l = get_or-none s p (omega arith)
