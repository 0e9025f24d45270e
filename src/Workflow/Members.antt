-- ===== src/Workflow/Members.antt =====
-- What is in a list of items, and which of them has an id.
use relops_bootstrap.Prelude.{
  ℕ, ◌≡◌, refl, inl, inr, Bool, true, false, ◌||◌, Bool-cases, List, [], ◌∷◌, ◌==◌, ==_iff, ==_refl,
  arith,
}
use relops_bootstrap.Effects.{Item}
use relops_bootstrap.Workflow.Group.{is_member}
use relops_bootstrap.Workflow.Apps.{is_carried}
use relops_bootstrap.Workflow.Parity.{has_item}

pub data IsIn {A : Type 0} (a : A) : List A → Type 0 where
  first : {rest : List A} → IsIn a (a ∷ rest)
  later : {b : A} {rest : List A} → IsIn a rest → IsIn a (b ∷ rest)

-- Some item has the id.
pub data HasId (id : ℕ) : List Item → Type 0 where
  this : {i : Item} {rest : List Item} → id ≡ i.id → HasId id (i ∷ rest)
  that : {i : Item} {rest : List Item} → HasId id rest → HasId id (i ∷ rest)

-- A group carries the app.
pub data IsCarried (id : ℕ) (groups : List Item) : Type 0 where
  carried_by : {g : Item} → IsIn g groups → IsIn id g.apps → IsCarried id groups

is_member-IsIn : (n : ℕ) (ms : List ℕ) → is_member n ms ≡ true → IsIn n ms
unfolding is_member
is_member-IsIn n [] e = absurd (cc)
is_member-IsIn n (m ∷ ms) e = elim (Bool-cases (n == m)) [
  | inl same ↦ rw (← (==_iff n m).0 same) first
  | inr other ↦ later (is_member-IsIn n ms (ground (arith, e, other)))
]

IsIn-is_member : (n : ℕ) (ms : List ℕ) → IsIn n ms → is_member n ms ≡ true
unfolding is_member
IsIn-is_member n [] m = elim m [ ]
IsIn-is_member n (_ ∷ ms) first = rw (==_refl n) refl
IsIn-is_member n (m ∷ ms) (later i) = rw (IsIn-is_member n ms i) (or_true (n == m))
  where
    or_true : (b : Bool) → (b || true) ≡ true
    or_true true = refl
    or_true false = refl

pub is_carried-IsCarried :
    (groups : List Item) (id : ℕ) → is_carried groups id ≡ true → IsCarried id groups
unfolding is_carried
is_carried-IsCarried [] id e = absurd (cc)
is_carried-IsCarried (g ∷ groups) id e = elim (Bool-cases (is_member id g.apps)) [
  | inl here ↦ carried_by first (is_member-IsIn id g.apps here)
  | inr other ↦ behind g (is_carried-IsCarried groups id (ground (arith, e, other)))
]
  where
    behind :
        {id : ℕ} {groups : List Item} (g : Item) → IsCarried id groups → IsCarried id (g ∷ groups)
    behind g (carried_by i j) = carried_by (later i) j

pub IsCarried-is_carried :
    (groups : List Item) (id : ℕ) (g : Item)
    → IsIn g groups
    → IsIn id g.apps
    → is_carried groups id ≡ true
unfolding is_carried
IsCarried-is_carried [] id g m i = elim m [ ]
IsCarried-is_carried (g ∷ groups) id _ first i = rw (IsIn-is_member id g.apps i) refl
IsCarried-is_carried (k ∷ groups) id g (later m) i =
    let rest : is_carried groups id ≡ true = IsCarried-is_carried groups id g m i in
    ground (arith, rest)

pub has_item-HasId : (id : ℕ) (have : List Item) → has_item id have ≡ true → HasId id have
unfolding has_item
has_item-HasId id [] e = absurd (cc)
has_item-HasId id (i ∷ have) e = elim (Bool-cases (id == i.id)) [
  | inl same ↦ this ((==_iff id i.id).0 same)
  | inr other ↦ that (has_item-HasId id have (ground (arith, e, other)))
]

pub HasId-has_item : (id : ℕ) (have : List Item) → HasId id have → has_item id have ≡ true
unfolding has_item
HasId-has_item id [] h = elim h [ ]
HasId-has_item id (i ∷ have) (this e) = let same = (==_iff id i.id).1 e in ground (arith, same)
HasId-has_item id (i ∷ have) (that h) = ground (arith, HasId-has_item id have h)
