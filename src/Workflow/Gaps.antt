-- ===== src/Workflow/Gaps.antt =====
-- What the parity check finds: the devices that lack a profile.
use relops_bootstrap.Prelude.{
  ℕ, ◌<◌, ◌≡◌, ◌≢◌, refl, ◌↔◌, Bool, true, false, List, [], ◌∷◌, all_of, length, ◌==◌,
  if◌then◌else◌, arith,
}
use relops_bootstrap.Effects.{World, History, ok, Item, pure, ◌>>=◌, profiles_of}
use relops_bootstrap.Clients.SimpleMdm.Pages.{device_profiles}
use relops_bootstrap.Clients.SimpleMdm.Gathering.{IsListed, paginated-whole}
use relops_bootstrap.Workflow.Peers.{Gap}
use relops_bootstrap.Workflow.Parity.{has_item, add_gap, compare_device, compare_devices}
use relops_bootstrap.Workflow.Members.{HasId, has_item-HasId, HasId-has_item}

if_cons-some : (c : Bool) (x y : Gap) (xs ys : List Gap) → (if c then x ∷ xs else y ∷ ys) ≢ []
if_cons-some true x y xs ys e = cc
if_cons-some false x y xs ys e = cc

add_gap-some : (i : Item) (d : ℕ) (gaps : List Gap) → add_gap i d gaps ≢ []
unfolding add_gap
add_gap-some i d [] e = cc
add_gap-some i d (g ∷ gaps) e = if_cons-some (i.id == g.item.id) _ g gaps (add_gap i d gaps) e

-- The device has each item of the baseline.
abbrev pub has_all : List Item → List Item → Bool
has_all baseline have = all_of (λ i. has_item i.id have) baseline

if_add-nil :
    (c : Bool) (i : Item) (d : ℕ) (gaps : List Gap)
    → (if c then gaps else add_gap i d gaps) ≡ []
    → (c ≡ true) × (gaps ≡ [])
if_add-nil true i d gaps e = (refl, e)
if_add-nil false i d gaps e = absurd (add_gap-some i d gaps e)

compare_device-nil :
    (baseline have : List Item) (d : ℕ) (gaps : List Gap)
    → compare_device baseline have d gaps ≡ []
    → (has_all baseline have ≡ true) × (gaps ≡ [])
unfolding compare_device
compare_device-nil [] have d gaps e = (refl, e)
compare_device-nil (i ∷ baseline) have d gaps e =
    let (rest, none_before) = compare_device-nil baseline have d _ e in
    let (here, none_yet) = if_add-nil (has_item i.id have) i d gaps none_before in
    (rw (here, rest) refl, none_yet)

has_all-nil :
    (baseline have : List Item) (d : ℕ)
    → has_all baseline have ≡ true
    → compare_device baseline have d [] ≡ []
unfolding compare_device
has_all-nil [] have d e = refl
has_all-nil (i ∷ baseline) have d e =
    let here : has_item i.id have ≡ true = ground (arith, e) in
    let rest : has_all baseline have ≡ true = ground (arith, e) in
    rw here (has_all-nil baseline have d rest)

-- The loop over the devices, where their profiles are known.
abbrev compare_all : List Item → (ℕ → List Item) → List ℕ → List Gap → List Gap
compare_all baseline profiles [] gaps = gaps
compare_all baseline profiles (d ∷ ds) gaps =
    compare_all baseline profiles ds (compare_device baseline (profiles d) d gaps)

abbrev pub all_have : List Item → (ℕ → List Item) → List ℕ → Bool
all_have baseline profiles ds = all_of (λ d. has_all baseline (profiles d)) ds

compare_all-nil :
    (baseline : List Item) (profiles : ℕ → List Item) (ds : List ℕ) (gaps : List Gap)
    → compare_all baseline profiles ds gaps ≡ []
    → (all_have baseline profiles ds ≡ true) × (gaps ≡ [])
compare_all-nil baseline profiles [] gaps e = (refl, e)
compare_all-nil baseline profiles (d ∷ ds) gaps e =
    let (rest, after) = compare_all-nil baseline profiles ds _ e in
    let (here, none_before) = compare_device-nil baseline (profiles d) d gaps after in
    (rw (here, rest) refl, none_before)

all_have-nil :
    (baseline : List Item) (profiles : ℕ → List Item) (ds : List ℕ)
    → all_have baseline profiles ds ≡ true
    → compare_all baseline profiles ds [] ≡ []
all_have-nil baseline profiles [] e = refl
all_have-nil baseline profiles (d ∷ ds) e =
    let here : has_all baseline (profiles d) ≡ true = ground (arith, e) in
    let rest : all_have baseline profiles ds ≡ true = ground (arith, e) in
    rw (has_all-nil baseline (profiles d) d here) (all_have-nil baseline profiles ds rest)

module _ (w : World) (profiles : ℕ → List Item)
    (listed : (d : ℕ) → IsListed w (profiles_of d) (profiles d))
    (enough : (d : ℕ) → length (profiles d) < w.page_fuel) where
  compare_devices-all :
      (baseline : List Item) (ds : List ℕ) (gaps : List Gap) (h : History)
      → (compare_devices baseline ds gaps w h).0 ≡ ok (compare_all baseline profiles ds gaps)
  unfolding compare_devices device_profiles pure ◌>>=◌
  compare_devices-all baseline [] gaps h = refl
  compare_devices-all baseline (d ∷ ds) gaps h =
      rw (paginated-whole w (profiles_of d) (profiles d) h (listed d) (enough d))
        (compare_devices-all baseline ds (compare_device baseline (profiles d) d gaps) _)

-- Each item of a baseline is among those that a device has.
pub data HasAll (have : List Item) : List Item → Type 0 where
  no_more : HasAll have []
  has :
      {i : Item} {baseline : List Item}
      → HasId i.id have
      → HasAll have baseline
      → HasAll have (i ∷ baseline)

-- Each device has each item of the baseline.
pub data AllHave (baseline : List Item) (profiles : ℕ → List Item) : List ℕ → Type 0 where
  no_device : AllHave baseline profiles []
  device :
      {d : ℕ} {ds : List ℕ}
      → HasAll (profiles d) baseline
      → AllHave baseline profiles ds
      → AllHave baseline profiles (d ∷ ds)

has_all-HasAll : (baseline have : List Item) → has_all baseline have ≡ true → HasAll have baseline
has_all-HasAll [] have e = no_more
has_all-HasAll (i ∷ baseline) have e =
    has (has_item-HasId i.id have (ground (arith, e)))
      (has_all-HasAll baseline have (ground (arith, e)))

HasAll-has_all : (baseline have : List Item) → HasAll have baseline → has_all baseline have ≡ true
HasAll-has_all [] have x = refl
HasAll-has_all (i ∷ baseline) have (has one rest) =
    rw (HasId-has_item i.id have one, HasAll-has_all baseline have rest) refl

module _ (baseline : List Item) (profiles : ℕ → List Item) where
  all_have-AllHave :
      (ds : List ℕ) → all_have baseline profiles ds ≡ true → AllHave baseline profiles ds
  all_have-AllHave [] e = no_device
  all_have-AllHave (d ∷ ds) e =
      device (has_all-HasAll baseline (profiles d) (ground (arith, e)))
        (all_have-AllHave ds (ground (arith, e)))

  AllHave-all_have :
      (ds : List ℕ) → AllHave baseline profiles ds → all_have baseline profiles ds ≡ true
  AllHave-all_have [] x = refl
  AllHave-all_have (d ∷ ds) (device whole rest) =
      rw (HasAll-has_all baseline (profiles d) whole, AllHave-all_have ds rest) refl

-- Where SimpleMDM serves the profiles of each device, page by page: the parity check of devices against
-- a baseline comes to an end with a list of gaps, which is empty exactly if each device has, for each
-- profile of the baseline, a profile with its id.
pub compare_devices_iff :
    (w : World) (profiles : ℕ → List Item) (baseline : List Item) (ds : List ℕ) (h : History)
    → ((d : ℕ) → IsListed w (profiles_of d) (profiles d))
    → ((d : ℕ) → length (profiles d) < w.page_fuel)
    → (gaps : List Gap) × ((compare_devices baseline ds [] w h).0 ≡ ok gaps)
      × ((gaps ≡ []) ↔ AllHave baseline profiles ds)
compare_devices_iff w profiles baseline ds h listed enough = (
  compare_all baseline profiles ds [],
  compare_devices-all w profiles listed enough baseline ds [] h,
  (
    λ e. all_have-AllHave baseline profiles ds (compare_all-nil baseline profiles ds [] e).0,
    λ x. all_have-nil baseline profiles ds (AllHave-all_have baseline profiles ds x),
  ),
)
