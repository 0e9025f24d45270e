-- ===== src/Workflow/Orphans.antt =====
-- What the audit reports as attached to nothing: the apps that no group carries.
use relops_bootstrap.Prelude.{
  ℕ, ◌<◌, ◌≡◌, refl, ap, ◌↔◌, ◌⊎◌, inl, inr, Bool, true, false, List, [], ◌∷◌, length,
  if◌then◌else◌, Option, none, some, Text, codes, text_eq→eq, text_eq_refl, Bool-cases,
}
use relops_bootstrap.Effects.{World, History, ok, Item, pure, ◌>>=◌, all_groups, all_apps}
use relops_bootstrap.Clients.SimpleMdm.{field_is}
use relops_bootstrap.Clients.SimpleMdm.Pages.{paginated, assignment_groups, apps}
use relops_bootstrap.Clients.SimpleMdm.Gathering.{IsListed, paginated-whole}
use relops_bootstrap.Workflow.Apps.{is_carried, orphans, custom_apps, Audit, audit, step_pkg_audit}
use relops_bootstrap.Workflow.Members.{
  IsIn, first, later, IsCarried, carried_by, is_carried-IsCarried, IsCarried-is_carried,
}

IsIn-if :
    {a b : Item} (c : Bool) (rest : List Item)
    → IsIn a (if c then rest else b ∷ rest)
    → ((c ≡ false) × (b ≡ a)) ⊎ IsIn a rest
IsIn-if true rest m = inr m
IsIn-if false rest first = inl (refl, refl)
IsIn-if false rest (later m) = inr m

If-IsIn :
    {a : Item} (b : Item) (c : Bool) (rest : List Item)
    → IsIn a rest
    → IsIn a (if c then rest else b ∷ rest)
If-IsIn b true rest m = m
If-IsIn b false rest m = later m

orphans-IsIn :
    (groups catalog : List Item) (a : Item)
    → IsIn a (orphans groups catalog)
    → IsIn a catalog × (is_carried groups a.id ≡ false)
unfolding orphans
orphans-IsIn groups [] a m = elim m [ ]
orphans-IsIn groups (b ∷ catalog) a m =
    elim (IsIn-if (is_carried groups b.id) (orphans groups catalog) m) [
      | inl (free, same) ↦ rw (← same) (first, free)
      | inr rest ↦ let (there, free) = orphans-IsIn groups catalog a rest in (later there, free)
    ]

IsIn-orphans :
    (groups catalog : List Item) (a : Item)
    → is_carried groups a.id ≡ false
    → IsIn a catalog
    → IsIn a (orphans groups catalog)
unfolding orphans
IsIn-orphans groups [] a free m = elim m [ ]
IsIn-orphans groups (a ∷ catalog) _ free first = rw free first
IsIn-orphans groups (b ∷ catalog) a free (later m) =
    If-IsIn b (is_carried groups b.id) (orphans groups catalog)
      (IsIn-orphans groups catalog a free m)

-- What the audit considers: the custom apps, or all.
abbrev pub IsAudited : Bool → Item → Type 0
IsAudited include_store a = (include_store ≡ true) ⊎ (a.app_type ≡ some (codes "custom"))

field_is-some : (o : Option Text) (v : Text) → field_is o v ≡ true → o ≡ some v
unfolding field_is
field_is-some none v e = absurd (cc)
field_is-some (some u) v e = ap some (text_eq→eq u v e)

some-field_is : (o : Option Text) (v : Text) → o ≡ some v → field_is o v ≡ true
unfolding field_is
some-field_is o v e = rw e (text_eq_refl v)

IsIn-kept :
    {a b : Item} (c : Bool) (rest : List Item)
    → IsIn a (if c then b ∷ rest else rest)
    → ((c ≡ true) × (b ≡ a)) ⊎ IsIn a rest
IsIn-kept true rest first = inl (refl, refl)
IsIn-kept true rest (later m) = inr m
IsIn-kept false rest m = inr m

Kept-IsIn :
    {a : Item} (b : Item) (c : Bool) (rest : List Item)
    → IsIn a rest
    → IsIn a (if c then b ∷ rest else rest)
Kept-IsIn b true rest m = later m
Kept-IsIn b false rest m = m

custom_apps-IsIn :
    (catalog : List Item) (a : Item)
    → IsIn a (custom_apps catalog)
    → IsIn a catalog × (a.app_type ≡ some (codes "custom"))
unfolding custom_apps
custom_apps-IsIn [] a m = elim m [ ]
custom_apps-IsIn (b ∷ catalog) a m =
    elim (IsIn-kept (field_is b.app_type (codes "custom")) (custom_apps catalog) m) [
      | inl (custom, same) ↦ rw (← same) (first, field_is-some b.app_type _ custom)
      | inr rest ↦ let (there, custom) = custom_apps-IsIn catalog a rest in (later there, custom)
    ]

IsIn-custom_apps :
    (catalog : List Item) (a : Item)
    → a.app_type ≡ some (codes "custom")
    → IsIn a catalog
    → IsIn a (custom_apps catalog)
unfolding custom_apps
IsIn-custom_apps [] a e m = elim m [ ]
IsIn-custom_apps (_ ∷ catalog) a e first = rw (some-field_is a.app_type _ e) first
IsIn-custom_apps (b ∷ catalog) a e (later m) =
    Kept-IsIn b (field_is b.app_type (codes "custom")) (custom_apps catalog)
      (IsIn-custom_apps catalog a e m)

abbrev considered : Bool → List Item → List Item
considered include_store everything = if include_store then everything else custom_apps everything

considered_iff :
    (include_store : Bool) (everything : List Item) (a : Item)
    → IsIn a (considered include_store everything) ↔ (IsIn a everything × IsAudited include_store a)
considered_iff true everything a = (λ m. (m, inl refl), λ (m, _). m)
considered_iff false everything a = (
  λ m. let (there, custom) = custom_apps-IsIn everything a m in (there, inr custom),
  λ (m, x). elim x [ inl e ↦ absurd (cc) | inr e ↦ IsIn-custom_apps everything a e m ],
)

not-IsCarried :
    (groups : List Item) (id : ℕ) → is_carried groups id ≡ false → ¬ (IsCarried id groups)
not-IsCarried groups id e (carried_by m i) =
    let carried : is_carried groups id ≡ true = IsCarried-is_carried groups id _ m i in cc

not-is_carried :
    (groups : List Item) (id : ℕ) → ¬ (IsCarried id groups) → is_carried groups id ≡ false
not-is_carried groups id ne = elim (Bool-cases (is_carried groups id)) [
  | inl e ↦ absurd (ne (is_carried-IsCarried groups id e))
  | inr e ↦ e
]

inert_iff :
    (include_store : Bool) (groups everything : List Item) (a : Item)
    → IsIn a (orphans groups (considered include_store everything))
      ↔ (IsIn a everything × IsAudited include_store a × (¬ (IsCarried a.id groups)))
inert_iff include_store groups everything a = (
  λ m.
      let (there, free) = orphans-IsIn groups _ a m in
      let (among, audited) = (considered_iff include_store everything a).0 there in
      (among, audited, not-IsCarried groups a.id free),
  λ (m, audited, free).
      IsIn-orphans groups _ a (not-is_carried groups a.id free)
        ((considered_iff include_store everything a).1 (m, audited)),
)

-- Where SimpleMDM serves the groups and the apps, page by page: `step_pkg_audit` comes to an end, and
-- what it reports as attached to nothing are the apps, only the custom ones unless the store's are
-- included, whose number no group has among its apps.
pub step_pkg_audit_iff :
    (w : World) (include_store : Bool) (groups everything : List Item) (h : History) (a : Item)
    → IsListed w all_groups groups
    → IsListed w all_apps everything
    → length groups < w.page_fuel
    → length everything < w.page_fuel
    → (report : Audit) × ((step_pkg_audit include_store w h).0 ≡ ok report)
      × (IsIn a report.inert
          ↔ (IsIn a everything × IsAudited include_store a × (¬ (IsCarried a.id groups))))
unfolding step_pkg_audit assignment_groups apps audit pure ◌>>=◌
step_pkg_audit_iff w include_store groups everything h a listed listed_apps few few_apps = (
  audit groups (considered include_store everything),
  rw
      (
        paginated-whole w all_groups groups h listed few,
        paginated-whole w all_apps everything (paginated all_groups w h).1 listed_apps few_apps,
      )
      refl,
  inert_iff include_store groups everything a,
)
