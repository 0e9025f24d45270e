-- ===== src/Prelude/Texts.antt =====
-- How the methods of `str` take a text apart: what they find is in it, and what was put together is
-- found again.
use Prim.Native.Nat.{ℕ}
use mathlib.Core.Path.{◌≡◌, refl}
use mathlib.Core.Bool.{Bool, true, false}
use mathlib.Core.Option.{some}
use mathlib.Core.List.{[], ◌∷◌, ◌++◌}
use native.Mathlib.Omega.{arith}
use relops_bootstrap.Prelude.Tests.{◌==◌, ==_refl, if◌then◌else◌}
use relops_bootstrap.Prelude.Strings.{Text, starts_with, skip, partition}

pub starts_with→eq : (s p : Text) → starts_with s p ≡ true → s ≡ p ++ skip s p
unfolding starts_with skip
starts_with→eq s [] h = refl
starts_with→eq [] (x ∷ p) h = absurd (cc)
starts_with→eq (c ∷ s) (x ∷ p) h = ground (arith, starts_with→eq s p)

pub starts_with-append : (p s : Text) → starts_with (p ++ s) p ≡ true
unfolding starts_with
starts_with-append [] s = refl
starts_with-append (x ∷ p) s = ground (arith, starts_with-append p s)

pub skip-append : (p s : Text) → skip (p ++ s) p ≡ s
unfolding skip
skip-append [] s = refl
skip-append (x ∷ p) s = skip-append p s

pub partition-split :
    (sep : ℕ) (s after : Text)
    → (partition sep s).1 ≡ some after
    → s ≡ (partition sep s).0 ++ (sep ∷ after)
unfolding partition
partition-split sep [] after h = cc
partition-split sep (c ∷ s) after h = ground (arith, partition-split sep s after)

-- No character of the text is `sep`.
abbrev pub lacks : ℕ → Text → Bool
lacks sep [] = true
lacks sep (c ∷ s) = if c == sep then false else lacks sep s

pub partition-lacks : (sep : ℕ) (s : Text) → lacks sep (partition sep s).0 ≡ true
unfolding partition
partition-lacks sep [] = refl
partition-lacks sep (c ∷ s) = ground (arith, partition-lacks sep s)

pub partition-append :
    (sep : ℕ) (before after : Text)
    → lacks sep before ≡ true
    → partition sep (before ++ (sep ∷ after)) ≡ (before, some after)
unfolding partition
partition-append sep [] after h = ground (arith, ==_refl sep)
partition-append sep (c ∷ s) after h = ground (arith, partition-append sep s after)
