-- ===== src/Workflow/Versions.antt =====
-- `_os_version_matches`: which versions pass the gate.
use relops_bootstrap.Prelude.{
  starts_with→eq, arith, ◌≡◌, refl, ◌⊎◌, inl, inr, ◌↔◌, true, [], ◌∷◌, ◌++◌, Text, codes, text_eq,
  text_eq→eq, text_eq_refl, starts_with, skip, Bool-cases,
}
use relops_bootstrap.Workflow.Gates.{os_version_matches}

-- The version itself, or one of its point releases.
abbrev pub IsRelease : Text → Text → Type 0
IsRelease expected actual =
    (actual ≡ expected) ⊎ ((rest : Text) × (actual ≡ (expected ++ codes ".") ++ rest))

starts_with-append : (p rest : Text) → starts_with (p ++ rest) p ≡ true
unfolding starts_with
starts_with-append [] rest = refl
starts_with-append (c ∷ p) rest = ground (arith, starts_with-append p rest)

matches→IsRelease :
    (actual expected : Text) → os_version_matches actual expected ≡ true → IsRelease expected actual
unfolding os_version_matches
matches→IsRelease actual expected h = elim (Bool-cases (text_eq actual expected)) [
  | inl same ↦ inl (text_eq→eq actual expected same)
  | inr other ↦ inr (
    skip actual (expected ++ codes "."),
    starts_with→eq actual (expected ++ codes ".") (ground (arith, h, other)),
  )
]

IsRelease→matches :
    (actual expected : Text) → IsRelease expected actual → os_version_matches actual expected ≡ true
unfolding os_version_matches
IsRelease→matches actual expected (inl e) =
    let same : text_eq actual expected ≡ true = rw e (text_eq_refl expected) in ground (arith, same)
IsRelease→matches actual expected (inr (rest, e)) =
    let starts : starts_with actual (expected ++ codes ".") ≡ true =
      rw e (starts_with-append (expected ++ codes ".") rest) in
    ground (arith, starts)

-- A version passes the gate exactly when it is the expected one or that one followed by a dot and any
-- text.
pub os_version_matches_iff :
    (actual expected : Text)
    → (os_version_matches actual expected ≡ true) ↔ IsRelease expected actual
os_version_matches_iff actual expected =
    (matches→IsRelease actual expected, IsRelease→matches actual expected)
