-- ===== src/WorkerPolicy/Budget.antt =====
-- What ValidateTemporaryBudget of internal/workerpolicy/temporary.go lets through.
use sandbox_codex.Common.{
  All, Bool-cases, List, [], arith, inl, inr, negsuc, ok, pos, refl, true, ℕ, ℤ, ◌+◌, ◌<◌, ◌↔◌, ◌∷◌,
  ◌≡◌, ◌≤◌,
}
use sandbox_codex.WorkerPolicy.{TemporaryStorage, budget_fits, size_of, validate_budget}

abbrev pub total_bytes : List TemporaryStorage → ℕ
total_bytes [] = 0
total_bytes (v ∷ vs) = size_of v.max_bytes + total_bytes vs

abbrev pub IsPositive : TemporaryStorage → Type 0
IsPositive v = 0 < size_of v.max_bytes

budget_fits_iff :
    (g total : ℕ) (z : ℤ)
    → total ≤ g
    → (budget_fits (pos g) total z ≡ true) ↔ ((0 < size_of z) × (total + size_of z ≤ g))
budget_fits_iff g total (negsuc n) fit = ((λ e. cc), λ (positive, small). absurd (omega arith))
budget_fits_iff g total (pos n) fit = ground arith

budget_sound :
    (total g : ℕ) (vs : List TemporaryStorage)
    → total ≤ g
    → validate_budget total vs (pos g) ≡ ok tt
    → All IsPositive vs × (total + total_bytes vs ≤ g)
unfolding validate_budget
budget_sound total g [] fit e = (tt, omega arith)
budget_sound total g (v ∷ vs) fit e = elim (Bool-cases (budget_fits (pos g) total v.max_bytes)) [
  | inr over ↦ cc (rw over at e)
  | inl fitting ↦
      let (positive, small) = (budget_fits_iff g total v.max_bytes fit).0 fitting in
      let (others, all_fit) =
        budget_sound (total + size_of v.max_bytes) g vs small (rw fitting at e) in
      ((positive, others), omega arith)
]

budget_complete :
    (total g : ℕ) (vs : List TemporaryStorage)
    → total ≤ g
    → All IsPositive vs
    → total + total_bytes vs ≤ g
    → validate_budget total vs (pos g) ≡ ok tt
unfolding validate_budget
budget_complete total g [] fit positive small = refl
budget_complete total g (v ∷ vs) fit (positive, others) small =
    rw ((budget_fits_iff g total v.max_bytes fit).1 (positive, omega arith))
      (budget_complete (total + size_of v.max_bytes) g vs (omega arith) others (omega arith))

-- A budget is accepted exactly when every file system has a positive size and their sizes together
-- are at most the memory of the guest, which is not negative here.
pub validate_budget_iff :
    (vs : List TemporaryStorage) (g : ℕ)
    → (validate_budget 0 vs (pos g) ≡ ok tt) ↔ (All IsPositive vs × (total_bytes vs ≤ g))
validate_budget_iff vs g = (
  (λ e. let (positive, small) = budget_sound 0 g vs (omega arith) e in (positive, omega arith)),
  (λ (positive, small). budget_complete 0 g vs (omega arith) positive (omega arith)),
)
