-- ===== src/Workflow/Apps.antt =====
-- `_resolve_app`, `step_pkg_audit` and `step_pkg_attach`.
use relops_bootstrap.Prelude.{
  ℕ, Bool, true, false, ◌&&◌, ◌||◌, not, Option, none, some, List, [], ◌∷◌, ◌++◌, text_eq, Text,
  codes, lower, contains, is_empty, all_of, ◌==◌, if◌then◌else◌,
}
use relops_bootstrap.Hostnames.{is_decimal}
use relops_bootstrap.Effects.{
  Exec, pure, raise, ask, when, done, ◌>>=◌, ◌>>◌, Item, reprovision_error, no_app, many_apps,
  app_missing,
}
use relops_bootstrap.Clients.SimpleMdm.{
  get_assignment_group, assignment_group_device_ids, push_apps, field_is,
}
use relops_bootstrap.Clients.SimpleMdm.Pages.{
  apps, assignment_groups, assignment_group_app_ids, add_app_to_assignment_group,
}
use relops_bootstrap.Workflow.Capture.{to_int}
use relops_bootstrap.Workflow.Group.{or_group, is_member}

-- `spec.isdigit()`, on the decimal digits; the other digits of Unicode, which `int` refuses, are left out.
unfoldable pub is_digits : Text → Bool
is_digits s = not (is_empty s) && all_of is_decimal s

-- `(value or "").lower()`
unfoldable pub lowered : Option Text → Text
lowered none = []
lowered (some s) = lower s

unfoldable pub app_with_id : ℕ → List Item → Option Item
app_with_id n [] = none
app_with_id n (a ∷ rest) = if a.id == n then some a else app_with_id n rest

unfoldable pub is_hit : Text → Item → Bool
unfolding lowered
is_hit needle a = contains (lowered a.name) needle || contains (lowered a.bundle_identifier) needle

unfoldable pub hits : Text → List Item → List Item
unfolding is_hit
hits needle [] = []
hits needle (a ∷ catalog) =
    let rest = hits needle catalog in if is_hit needle a then a ∷ rest else rest

unfoldable pub or_no_app : Option Item → Exec Item
or_no_app none = raise (reprovision_error no_app)
or_no_app (some a) = pure a

unfoldable pub only : List Item → Exec Item
only [] = raise (reprovision_error no_app)
only (a ∷ []) = pure a
only (a ∷ b ∷ rest) = raise (reprovision_error many_apps)

-- The app that the number names, `int(spec)`.
unfoldable pub by_number : Option (Bool × ℕ) → List Item → Option Item
unfolding app_with_id
by_number none catalog = none
by_number (some (negative, n)) catalog = app_with_id n catalog

unfoldable pub choose_app : Text → List Item → Exec Item
unfolding is_digits by_number or_no_app hits only
choose_app spec catalog =
    if is_digits spec
    then or_no_app (by_number (to_int spec) catalog)
    else only (hits (lower spec) catalog)

-- `_resolve_app`
unfoldable pub resolve_app : Text → Exec Item
unfolding choose_app
resolve_app spec = do catalog ← apps; choose_app spec catalog

-- The apps that some group carries.
unfoldable pub is_carried : List Item → ℕ → Bool
unfolding is_member
is_carried [] id = false
is_carried (g ∷ groups) id = is_member id g.apps || is_carried groups id

unfoldable pub custom_apps : List Item → List Item
custom_apps [] = []
custom_apps (a ∷ catalog) =
    let rest = custom_apps catalog in
    if field_is a.app_type (codes "custom") then a ∷ rest else rest

unfoldable pub orphans : List Item → List Item → List Item
unfolding is_carried
orphans groups [] = []
orphans groups (a ∷ catalog) =
    let rest = orphans groups catalog in if is_carried groups a.id then rest else a ∷ rest

-- The apps by their bundle identifier, in the order in which they came.
unfoldable pub or_empty : Option Text → Text
or_empty none = []
or_empty (some s) = s

abbrev pub Bundles : Type 0
Bundles = List (Text × List Item)

unfoldable pub add_to : Text → Item → Bundles → Bundles
add_to bundle a [] = (bundle, a ∷ []) ∷ []
add_to bundle a ((b, v) ∷ bundles) =
    let rest = add_to bundle a bundles in
    if text_eq bundle b then (b, v ++ (a ∷ [])) ∷ bundles else (b, v) ∷ rest

unfoldable pub add_bundle : Text → Item → Bundles → Bundles
unfolding add_to
add_bundle bundle a out = if is_empty bundle then out else add_to bundle a out

unfoldable pub by_bundle : List Item → Bundles → Bundles
unfolding or_empty add_bundle
by_bundle [] out = out
by_bundle (a ∷ catalog) out = by_bundle catalog (add_bundle (or_empty a.bundle_identifier) a out)

unfoldable pub has_stray : List Item → List Item → Bool
unfolding is_carried
has_stray groups [] = false
has_stray groups (a ∷ rest) = not (is_carried groups a.id) || has_stray groups rest

unfoldable pub several : List Item → Bool
several (a ∷ b ∷ rest) = true
several _ = false

-- Uploaded more than once, with a copy that no group carries.
unfoldable pub dupes : List Item → Bundles → Bundles
unfolding has_stray several
dupes groups [] = []
dupes groups ((b, v) ∷ bundles) =
    let rest = dupes groups bundles in
    if several v && has_stray groups v then (b, v) ∷ rest else rest

-- What `step_pkg_audit` reports: the duplicates, and what is uploaded but inert.
pub record Audit : Type 0 where
  pub duplicates : Bundles
  pub inert : List Item

unfoldable pub audit : List Item → List Item → Audit
unfolding by_bundle dupes orphans
audit groups catalog = record {
  duplicates = dupes groups (by_bundle catalog []);
  inert = orphans groups catalog;
}

unfoldable pub step_pkg_audit : Bool → Exec Audit
unfolding custom_apps audit
step_pkg_audit include_store = do
  groups ← assignment_groups
  everything ← apps
  pure (audit groups (if include_store then everything else custom_apps everything))

-- The write, where the group does not carry the app yet.
unfoldable pub attach : ℕ → ℕ → Bool → Bool → Exec (Unit {0})
attach gid aid push true = done
attach gid aid push false = do add_app_to_assignment_group gid aid; when push (push_apps gid)

unfoldable pub step_pkg_attach : Text → Option ℕ → Bool → Exec (Unit {0})
unfolding resolve_app attach
step_pkg_attach app_spec group_id push = do
  s ← ask (λ w. w.settings)
  let gid = or_group group_id s.bootstrap_group_id
  app ← resolve_app app_spec
  group ← get_assignment_group gid
  members ← assignment_group_device_ids gid
  before ← assignment_group_app_ids gid
  attach gid app.id push (is_member app.id before)
  after ← assignment_group_app_ids gid
  if is_member app.id after then done else raise (reprovision_error app_missing)
