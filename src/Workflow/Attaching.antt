-- ===== src/Workflow/Attaching.antt =====
-- `step_pkg_attach` returns only on a group that was read to carry the app, and which app a text names.
use relops_bootstrap.Prelude.{
  contains, Bool-cases, arith, ℕ, ◌≡◌, refl, sym, subst, Bool, true, false, Option, none, some,
  if_some-cases, ◌⊎◌, inl, inr, List, [], ◌∷◌, Text, lower, ◌==◌, ==_iff, if◌then◌else◌,
}
use relops_bootstrap.Effects.{World, History, Exec, Result, ok, err, Item, Group}
use relops_bootstrap.Effects.Gives.{
  Post, Gives, Gives-pure, Gives-raise, Gives-if, Gives-bind, Gives-done, Gives-asked, Gives-given,
  Post-ok,
}
use relops_bootstrap.Clients.Taskcluster.Busy.{Any}
use relops_bootstrap.Clients.SimpleMdm.Pages.{apps, assignment_group_app_ids}
use relops_bootstrap.Clients.SimpleMdm.Answers.{IsRead, get_assignment_group-IsRead}
use relops_bootstrap.Workflow.Draining.{Gives-Any}
use relops_bootstrap.Workflow.Capture.{to_int}
use relops_bootstrap.Workflow.Group.{or_group, is_member}
use relops_bootstrap.Workflow.Members.{IsIn, first, later}
use relops_bootstrap.Workflow.Apps.{
  is_digits, app_with_id, is_hit, lowered, hits, or_no_app, only, by_number, choose_app,
  resolve_app, step_pkg_attach,
}

-- The text names the app: by its number, or by a part of its name or its bundle identifier.
pub data IsNamed (spec : Text) (a : Item) : Type 0 where
  numbered :
      {negative : Bool}
      → is_digits spec ≡ true
      → to_int spec ≡ some (negative, a.id)
      → IsNamed spec a
  matched :
      is_digits spec ≡ false
      → (contains (lowered a.name) (lower spec) ≡ true)
        ⊎ (contains (lowered a.bundle_identifier) (lower spec) ≡ true)
      → IsNamed spec a

is_hit-cases :
    (needle : Text) (a : Item)
    → is_hit needle a ≡ true
    → (contains (lowered a.name) needle ≡ true)
      ⊎ (contains (lowered a.bundle_identifier) needle ≡ true)
unfolding is_hit
is_hit-cases needle a e = elim (Bool-cases (contains (lowered a.name) needle)) [
  | inl here ↦ inl here
  | inr other ↦ inr (ground (arith, e, other))
]

app_with_id-some :
    (n : ℕ) (catalog : List Item) (a : Item)
    → app_with_id n catalog ≡ some a
    → (a.id ≡ n) × IsIn a catalog
unfolding app_with_id
app_with_id-some n [] a e = absurd (cc)
app_with_id-some n (b ∷ catalog) a e =
    elim (if_some-cases (b.id == n) b (app_with_id n catalog) e) [
      | inl (found, same) ↦ rw (← same) ((==_iff b.id n).0 found, first)
      | inr rest ↦ let (number, among) = app_with_id-some n catalog a rest in (number, later among)
    ]

by_number-some :
    (o : Option (Bool × ℕ)) (catalog : List Item) (a : Item)
    → by_number o catalog ≡ some a
    → (negative : Bool) × (o ≡ some (negative, a.id)) × IsIn a catalog
unfolding by_number
by_number-some none catalog a e = absurd (cc)
by_number-some (some (negative, n)) catalog a e =
    let (number, among) = app_with_id-some n catalog a e in (negative, rw number refl, among)

if_cons-cases :
    (c : Bool) (b : Item) (others : List Item) (a : Item) (rest : List Item)
    → (if c then b ∷ others else others) ≡ a ∷ rest
    → ((c ≡ true) × (b ≡ a)) ⊎ (others ≡ a ∷ rest)
if_cons-cases true b others a rest e = inl (refl, cc)
if_cons-cases false b others a rest e = inr e

hits-are :
    (needle : Text) (catalog : List Item) (a : Item) (rest : List Item)
    → hits needle catalog ≡ a ∷ rest
    → (is_hit needle a ≡ true) × IsIn a catalog
unfolding hits
hits-are needle [] a rest e = absurd (cc)
hits-are needle (b ∷ catalog) a rest e =
    elim (if_cons-cases (is_hit needle b) b (hits needle catalog) a rest e) [
      | inl (hit, same) ↦ rw (← same) (hit, first)
      | inr others ↦ let (hit, among) = hits-are needle catalog a rest others in (hit, later among)
    ]

-- What an action returns is what it returns after the history that is known.
Post-known : {A : Type 0} (r : Result A) (l : History) → Post (λ a h. r ≡ ok a) Any r l
Post-known (ok a) l = refl
Post-known (err f) l = tt

Gives-known :
    {A : Type 0} (w : World) (start : History) (m : Exec A)
    → Gives w (λ h. h ≡ start) m (λ a h. (m w start).0 ≡ ok a) Any
Gives-known w start m = record {
  at = λ h e.
      subst (λ k. Post (λ a h. (m w start).0 ≡ ok a) Any (m w k).0 (m w k).1) (sym e)
        (Post-known (m w start).0 (m w start).1);
}

module _ (w : World) (spec : Text) (start : History) where
  -- The app is in the list of all apps that the step got first, and the text names it.
  abbrev Chosen : Item → History → Type 0
  Chosen a h =
      (catalog : List Item) × ((apps w start).0 ≡ ok catalog) × IsIn a catalog × IsNamed spec a

  Gives-or_no_app :
      (o : Option Item)
      → ((a : Item) → o ≡ some a → Chosen a start)
      → Gives w Any (or_no_app o) Chosen Any
  unfolding or_no_app
  Gives-or_no_app none named = Gives-raise _ (λ h p. tt)
  Gives-or_no_app (some a) named = Gives-pure {Q = Chosen} a (λ h p. named a refl)

  Gives-only :
      (found : List Item)
      → ((a : Item) (rest : List Item) → found ≡ a ∷ rest → Chosen a start)
      → Gives w Any (only found) Chosen Any
  unfolding only
  Gives-only [] named = Gives-raise _ (λ h p. tt)
  Gives-only (a ∷ []) named = Gives-pure {Q = Chosen} a (λ h p. named a [] refl)
  Gives-only (a ∷ b ∷ rest) named = Gives-raise _ (λ h p. tt)

  resolve_app-Chosen : Gives w (λ h. h ≡ start) (resolve_app spec) Chosen Any
  unfolding resolve_app choose_app
  resolve_app-Chosen =
      Gives-bind (λ catalog h. (apps w start).0 ≡ ok catalog) _ _ (Gives-known w start apps)
        λ catalog.
          Gives-given (λ h got. tt)
            λ got.
              Gives-if (is_digits spec) _ _
                (λ e. Gives-or_no_app _ λ a found.
                  let (negative, number, among) = by_number-some (to_int spec) catalog a found in
                  (catalog, got, among, numbered e number))
                (λ e. Gives-only _ λ a rest found.
                  let (hit, among) = hits-are (lower spec) catalog a rest found in
                  (catalog, got, among, matched e (is_hit-cases (lower spec) a hit)))

  app_ids-IsRead :
      (gid : ℕ)
      → Gives w Any
          (assignment_group_app_ids gid)
          (λ ids h. (g : Group) × IsRead gid g h × (g.apps ≡ ids))
          Any
  unfolding assignment_group_app_ids
  app_ids-IsRead gid =
      Gives-bind (λ g. IsRead gid g) _ _ (get_assignment_group-IsRead w gid)
        λ g. Gives-pure _ (λ h x. (g, x, refl))

-- The last call read the group; it carries an app of SimpleMDM's list that the text names.
pub record IsAttached (w : World) (spec : Text) (gid : ℕ) (start h : History) : Type 0 where
  pub app : Item
  pub catalog : List Item
  pub fetched : (apps w start).0 ≡ ok catalog
  pub among : IsIn app catalog
  pub named : IsNamed spec app
  pub group : Group
  pub is_read : IsRead gid group h
  pub carried : is_member app.id group.apps ≡ true

step_pkg_attach-Gives :
    (w : World) (spec : Text) (group_id : Option ℕ) (push : Bool) (start : History)
    → Gives w
        (λ h. h ≡ start)
        (step_pkg_attach spec group_id push)
        (λ u. IsAttached w spec (or_group group_id w.settings.bootstrap_group_id) start)
        Any
unfolding step_pkg_attach
step_pkg_attach-Gives w spec group_id push start =
    let gid = or_group group_id w.settings.bootstrap_group_id in
    Gives-asked _ _ (
      Gives-bind (Chosen w spec start) _ _ (resolve_app-Chosen w spec start) λ app.
        Gives-given (λ h chosen. tt)
          λ (catalog, fetched, among, named).
            Gives-bind (λ g. Any) _ _ (Gives-Any _)
              λ group.
                Gives-bind (λ ids. Any) _ _ (Gives-Any _)
                  λ members.
                    Gives-bind (λ ids. Any) _ _ (Gives-Any _)
                      λ before.
                        Gives-bind (λ u. Any) _ _ (Gives-Any _)
                          λ u. Gives-bind _ _ _ (app_ids-IsRead w spec start gid) λ after.
                            Gives-if (is_member app.id after) _ _
                              (λ e. Gives-done λ h (g, r, same). record {
                                app = app;
                                catalog = catalog;
                                fetched = fetched;
                                among = among;
                                named = named;
                                group = g;
                                is_read = r;
                                carried = rw same e;
                              })
                              (λ e. Gives-raise _ (λ h x. tt)))

-- In any world and after any history: when `step_pkg_attach` returns, its last call read the group, the
-- one that was given or the bootstrap group, and the answer lists an app of the list of all apps that
-- the step got from SimpleMDM, one that the text names: by its number, or by a part of its name or
-- bundle identifier.
pub step_pkg_attach-IsAttached :
    (w : World) (spec : Text) (group_id : Option ℕ) (push : Bool) (h h' : History)
    → step_pkg_attach spec group_id push w h ≡ (ok tt, h')
    → IsAttached w spec (or_group group_id w.settings.bootstrap_group_id) h h'
step_pkg_attach-IsAttached w spec group_id push h h' e =
    Post-ok Any (λ u. IsAttached w spec (or_group group_id w.settings.bootstrap_group_id) h) tt
      (step_pkg_attach spec group_id push w h) h' e
      ((step_pkg_attach-Gives w spec group_id push h).at h refl)
