-- ===== src/Transfer/Complete.antt =====
-- The completeness check of a received folder.
use blt.Base.{
  ℕ, ◌+◌, ◌≡◌, ◌↔◌, refl, true, false, List, [], ◌∷◌, inl, inr, arith, ==_iff, All, Bool-cases,
  length,
}
use blt.Base.Text.{Text}
use blt.Transfer.{Fs, complete, has_size, check_entries, completeness_check}

check_entries-sum :
    (fs : Fs) (entries : List (Text × ℕ))
    → (check_entries fs entries).0 + length (check_entries fs entries).1 ≡ length entries
unfolding check_entries
check_entries-sum fs [] = omega arith
check_entries-sum fs ((rel, size) ∷ entries) = elim (Bool-cases (has_size fs (rel, size))) [
  | inl e ↦ rw e (omega (arith, check_entries-sum fs entries))
  | inr e ↦ rw e (omega (arith, check_entries-sum fs entries))
]

check_entries-All :
    (fs : Fs) (entries : List (Text × ℕ))
    → ((check_entries fs entries).0 ≡ length entries)
      ↔ All (λ entry. has_size fs entry ≡ true) entries
unfolding check_entries
check_entries-All fs [] = (λ h. tt, λ h. refl)
check_entries-All fs ((rel, size) ∷ entries) = elim (Bool-cases (has_size fs (rel, size))) [
  | inl e ↦ rw e (
    λ h. (refl, (check_entries-All fs entries).0 (omega arith)),
    λ h. omega (arith, (check_entries-All fs entries).1 h.1),
  )
  | inr e ↦ rw e (
    λ h. absurd (omega (arith, check_entries-sum fs entries)),
    λ h. absurd (let f : false ≡ true = h.0 in cc),
  )
]

-- The report counts every entry as present or missing, and is complete exactly when every entry has
-- a file of its size at its destination.
pub completeness_check_lem :
    (fs : Fs) (entries : List (Text × ℕ))
    → ((completeness_check fs entries).present + length (completeness_check fs entries).missing
        ≡ (completeness_check fs entries).total)
      × ((complete (completeness_check fs entries) ≡ true)
          ↔ All (λ entry. has_size fs entry ≡ true) entries)
unfolding completeness_check
completeness_check_lem fs entries = (
  check_entries-sum fs entries,
  (
    λ h. (check_entries-All fs entries).0 ((==_iff _ _).0 h),
    λ h. (==_iff _ _).1 ((check_entries-All fs entries).1 h),
  ),
)
