-- ===== src/Prelude/Tests.antt =====
-- Boolean tests on the native numbers, the conditional, and splits that keep their equation.
use Prim.Native.Nat.{ℕ, ◌≤◌, ◌<◌, compare, Ordering}
use mathlib.Core.Path.{◌≡◌, refl}
use mathlib.Core.Logic.{◌↔◌, ◌⊎◌, inl, inr}
use mathlib.Core.Bool.{Bool, true, false}
use mathlib.Core.Option.{Option, none, some}
use native.Mathlib.Omega.{arith}

abbrev pub ltb : ℕ → ℕ → Bool
ltb a b = elim (compare a b) [ Ordering.lt ↦ true | _ ↦ false ]

abbrev pub leb : ℕ → ℕ → Bool
leb a b = elim (compare a b) [ Ordering.gt ↦ false | _ ↦ true ]

infix 50 ◌==◌
abbrev pub ◌==◌ : ℕ → ℕ → Bool
a == b = elim (compare a b) [ Ordering.eq ↦ true | _ ↦ false ]

infix 1 if◌then◌else◌
abbrev pub if◌then◌else◌ {ℓ} : {A : Type ℓ} → Bool → A → A → A
if true then x else y = x
if false then x else y = y

pub ltb→lt : (a b : ℕ) → ltb a b ≡ true → a < b
ltb→lt a b h = ground arith

pub ltb→ge : (a b : ℕ) → ltb a b ≡ false → b ≤ a
ltb→ge a b h = ground arith

pub lt→ltb : (a b : ℕ) → a < b → ltb a b ≡ true
lt→ltb a b h = ground arith

pub leb→le : (a b : ℕ) → leb a b ≡ true → a ≤ b
leb→le a b h = ground arith

pub leb→gt : (a b : ℕ) → leb a b ≡ false → b < a
leb→gt a b h = ground arith

pub ==_iff : (a b : ℕ) → ((a == b) ≡ true) ↔ (a ≡ b)
==_iff a b = ground arith

pub ==_refl : (a : ℕ) → (a == a) ≡ true
==_refl a = ground arith

pub ruleset tests = (arith, ltb→lt, ltb→ge, leb→le, leb→gt)

pub Bool-cases : (b : Bool) → (b ≡ true) ⊎ (b ≡ false)
Bool-cases true = inl refl
Bool-cases false = inr refl

pub Option-cases {ℓ} : {A : Type ℓ} (o : Option A) → (o ≡ none) ⊎ ((a : A) × (o ≡ some a))
Option-cases none = inl refl
Option-cases (some a) = inr (a, refl)

pub some-injective {ℓ} : {A : Type ℓ} {a b : A} → some a ≡ some b → a ≡ b
some-injective e = cc

pub if-some {ℓ} :
    {A : Type ℓ} {b : Bool} {a q : A} → (if b then some a else none) ≡ some q → (b ≡ true) × (a ≡ q)
if-some {b = true} e = (refl, some-injective e)
if-some {b = false} e = absurd (cc)

pub if_else-some {ℓ} :
    {A : Type ℓ} {b : Bool} {o : Option A} {q : A}
    → (if b then o else none) ≡ some q
    → (b ≡ true) × (o ≡ some q)
if_else-some {b = true} e = (refl, e)
if_else-some {b = false} e = absurd (cc)

pub if_not-some {ℓ} :
    {A : Type ℓ} {b : Bool} {o : Option A} {q : A}
    → (if b then none else o) ≡ some q
    → (b ≡ false) × (o ≡ some q)
if_not-some {b = true} e = absurd (cc)
if_not-some {b = false} e = (refl, e)

pub if_some-cases {ℓ} :
    {A : Type ℓ} (b : Bool) (a : A) (o : Option A) {q : A}
    → (if b then some a else o) ≡ some q
    → ((b ≡ true) × (a ≡ q)) ⊎ (o ≡ some q)
if_some-cases true a o e = inl (refl, some-injective e)
if_some-cases false a o e = inr e
