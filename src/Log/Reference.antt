-- ===== src/Log/Reference.antt =====
-- Which reference a record names.
use httpcache.Base.{
  ℕ, zero, suc, ◌<◌, ◌≤◌, ◌≡◌, refl, [], ◌∷◌, none, some, get_elem?, length, arith, ltb, Bool-cases,
  inl, inr,
}
use httpcache.Base.Int.{ℤ, pos, negsuc, ◌<ℤ◌, ◌≤ℤ◌}
use httpcache.Entry.{ResponseRef, ResponseRefs}
use httpcache.Log.{ref_at}

get_elem?-some :
    (refs : ResponseRefs) (i : ℕ)
    → i < length refs
    → (r : ResponseRef) × (get_elem? refs i ≡ some r)
get_elem?-some [] i h = absurd (omega arith)
get_elem?-some (r ∷ refs) zero h = (r, refl)
get_elem?-some (r ∷ refs) (suc i) h = get_elem?-some refs i (omega arith)

get_elem?-none : (refs : ResponseRefs) (i : ℕ) → length refs ≤ i → get_elem? refs i ≡ none
get_elem?-none [] i h = refl
get_elem?-none (r ∷ refs) zero h = absurd (omega arith)
get_elem?-none (r ∷ refs) (suc i) h = get_elem?-none refs i (omega arith)

-- A record names a reference exactly if the index is one of the list: so a miss, whose index is
-- negative, names none.
pub ref_at_lem :
    (i : ℤ) (refs : ResponseRefs)
    → ((pos 0 ≤ℤ i) × (i <ℤ pos (length refs)) → (r : ResponseRef) × (ref_at i refs ≡ some r))
      × (¬ ((pos 0 ≤ℤ i) × (i <ℤ pos (length refs))) → ref_at i refs ≡ none)
unfolding ref_at
ref_at_lem (pos i) refs = (
  λ (h, k). get_elem?-some refs i (omega (arith, k)),
  λ h. elim (Bool-cases (ltb i (length refs))) [
    | inl below ↦ absurd (h (omega arith, ground arith))
    | inr above ↦ get_elem?-none refs i (ground arith)
  ],
)
ref_at_lem (negsuc i) refs = (λ (h, k). absurd (omega (arith, h)), λ h. refl)
