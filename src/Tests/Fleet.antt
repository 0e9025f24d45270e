-- ===== src/Tests/Fleet.antt =====
-- A service with two apps and one profile, listed page by page.
use relops_bootstrap.Prelude.{
  arith, ℕ, ◌≡◌, refl, is_empty, strip, is_space, strip_left, ap, subst, length-append, ◌↔◌, inl,
  inr, true, false, none, some, Option, List, [], ◌∷◌, ◌++◌, length, codes, ◌==◌, if◌then◌else◌,
}
use relops_bootstrap.Effects.{
  ◌>>=◌, ask, of_secret, http_call, pure, done, call, World, History, ok, Response, Body, group,
  page, other_body, Item, Listing, profiles_of, all_apps, all_groups, Request, list_page, get_group,
}
use relops_bootstrap.Clients.SimpleMdm.{
  request, request_loop, send, is_retry_status, raise_for_status, get_assignment_group,
  assignment_group_device_ids, of_http, as_group,
}
use relops_bootstrap.Clients.SimpleMdm.Pages.{
  paginated, no_items, apps, as_page, last_id, pages_loop, assignment_group_app_ids,
}
use relops_bootstrap.Clients.SimpleMdm.Gathering.{
  IsListed, IsPage, Follows, from_start, behind, paginated-whole,
}
use relops_bootstrap.Hostnames.{is_decimal, in_digits}
use relops_bootstrap.Workflow.Capture.{to_int, signed, digits_from, digit_value}
use relops_bootstrap.Workflow.Group.{or_group, is_member}
use relops_bootstrap.Workflow.Apps.{
  Audit, step_pkg_audit, resolve_app, choose_app, is_digits, by_number, app_with_id, or_no_app,
  attach, step_pkg_attach,
}
use relops_bootstrap.Workflow.Attaching.{IsAttached, step_pkg_attach-IsAttached}
use relops_bootstrap.Workflow.Parity.{compare_devices}
use relops_bootstrap.Workflow.Peers.{Gap}
use relops_bootstrap.Workflow.Members.{IsIn, IsCarried}
use relops_bootstrap.Workflow.Gaps.{AllHave, compare_devices_iff}
use relops_bootstrap.Workflow.Orphans.{IsAudited, step_pkg_audit_iff}
use relops_bootstrap.Tests.Lab.{lab}

abbrev item : ℕ → Item
item n = record {
  id = n;
  name = some (codes "pkg");
  bundle_identifier = none;
  app_type = some (codes "custom");
  apps = 2 ∷ [];
  devices = [];
}

abbrev two_apps : List Item
two_apps = item 1 ∷ item 2 ∷ []

abbrev app_page : Option ℕ → Body
app_page none = page (item 1 ∷ []) true
app_page (some n) = if n == 1 then page (item 2 ∷ []) false else page [] false

abbrev profile_page : Option ℕ → Body
profile_page none = page (item 5 ∷ []) false
profile_page (some n) = page [] false

abbrev group_page : Option ℕ → Body
group_page none = page (item 9 ∷ []) false
group_page (some n) = page [] false

abbrev fleet_body : Request → Body
fleet_body (list_page all_groups start) = group_page start
fleet_body (list_page all_apps start) = app_page start
fleet_body (list_page (profiles_of d) start) = profile_page start
fleet_body (get_group id) =
    group (record { name = some (codes "bootstrap"); apps = 2 ∷ []; devices = [] })
fleet_body _ = other_body

abbrev fleet_reply : Request → Response
fleet_reply q = record { status_code = 200; retry_after = none; body = fleet_body q }

abbrev fleet : World
fleet = record lab { request = λ h q. some (fleet_reply q) }

-- The page after an item, where the rest of the listing is known.
carried :
    (path : Listing) {a i : Item} {known rest : List Item}
    → a ∷ known ≡ i ∷ rest
    → IsPage known (fleet_reply (list_page path (some a.id)))
    → IsPage rest (fleet_reply (list_page path (some i.id)))
carried path {a} {i} {known} {rest} e p =
    let same_item : a ≡ i = cc in
    let same_rest : known ≡ rest = cc in
    subst (λ r. IsPage r (fleet_reply (list_page path (some i.id)))) same_rest
      (subst (λ j. IsPage known (fleet_reply (list_page path (some j.id)))) same_item p)

one_item :
    (path : Listing) (start : Option ℕ) (i : Item)
    → fleet_body (list_page path start) ≡ page (i ∷ []) false
    → IsPage (i ∷ []) (fleet_reply (list_page path start))
unfolding no_items
one_item path start i e = record {
  items = i ∷ [];
  tail = [];
  is_ok = refl;
  body = e;
  splits = refl;
  not_idle = inl refl;
}

last_page :
    (path : Listing) (start : Option ℕ)
    → fleet_body (list_page path start) ≡ page [] false
    → IsPage [] (fleet_reply (list_page path start))
unfolding no_items
last_page path start e = record {
  items = [];
  tail = [];
  is_ok = refl;
  body = e;
  splits = refl;
  not_idle = inr refl;
}

app-IsPage :
    (start : Option ℕ) (rest : List Item)
    → Follows two_apps start rest
    → IsPage rest (fleet_reply (list_page all_apps start))
unfolding no_items
app-IsPage _ _ from_start = record {
  items = item 1 ∷ [];
  tail = item 2 ∷ [];
  is_ok = refl;
  body = refl;
  splits = refl;
  not_idle = inl refl;
}
app-IsPage _ rest (behind [] i _ e) =
    carried all_apps {a = item 1} {known = item 2 ∷ []} e (one_item all_apps (some 1) (item 2) refl)
app-IsPage _ rest (behind (x ∷ []) i _ e) =
    let e' : item 2 ∷ [] ≡ i ∷ rest = cc in
    carried all_apps {a = item 2} {known = []} e' (last_page all_apps (some 2) refl)
app-IsPage _ rest (behind (x ∷ y ∷ before) i _ e) = absurd (too_long x y before i rest e)
  where
    too_long :
        (x y : Item) (before : List Item) (i : Item) (rest : List Item)
        → ¬ (two_apps ≡ (x ∷ y ∷ before) ++ (i ∷ rest))
    too_long x y before i rest e =
        let size : 2 ≡ length ((x ∷ y ∷ before) ++ (i ∷ rest)) = ap length e in
        omega (arith, size, length-append before (i ∷ rest))

apps-IsListed : IsListed fleet all_apps two_apps
apps-IsListed = record {
  key = codes "key";
  has_key = refl;
  serves =
      λ h start rest f. (fleet_reply (list_page all_apps start), refl, app-IsPage start rest f);
}

paginated-whole_example : (paginated all_apps fleet []).0 ≡ ok two_apps
paginated-whole_example = paginated-whole fleet all_apps two_apps [] apps-IsListed (omega arith)

-- A listing of one item.
module _ (path : Listing) (i : Item) (here : fleet_body (list_page path none) ≡ page (i ∷ []) false)
    (behind_it : fleet_body (list_page path (some i.id)) ≡ page [] false) where
  single-IsPage :
      (start : Option ℕ) (rest : List Item)
      → Follows (i ∷ []) start rest
      → IsPage rest (fleet_reply (list_page path start))
  single-IsPage _ _ from_start = one_item path none i here
  single-IsPage _ rest (behind [] j _ e) =
      carried path {a = i} {known = []} e (last_page path (some i.id) behind_it)
  single-IsPage _ rest (behind (x ∷ before) j _ e) = absurd (too_long x before j rest e)
    where
      too_long :
          (x : Item) (before : List Item) (j : Item) (rest : List Item)
          → ¬ (i ∷ [] ≡ (x ∷ before) ++ (j ∷ rest))
      too_long x before j rest e =
          let size : 1 ≡ length ((x ∷ before) ++ (j ∷ rest)) = ap length e in
          omega (arith, size, length-append before (j ∷ rest))

  single-IsListed : IsListed fleet path (i ∷ [])
  single-IsListed = record {
    key = codes "key";
    has_key = refl;
    serves =
        λ h start rest f. (fleet_reply (list_page path start), refl, single-IsPage start rest f);
  }

compare_devices_iff_example :
    (gaps : List Gap) × ((compare_devices (item 5 ∷ []) (7 ∷ 8 ∷ []) [] fleet []).0 ≡ ok gaps)
    × ((gaps ≡ []) ↔ AllHave (item 5 ∷ []) (λ d. item 5 ∷ []) (7 ∷ 8 ∷ []))
compare_devices_iff_example =
    compare_devices_iff fleet (λ d. item 5 ∷ []) (item 5 ∷ []) (7 ∷ 8 ∷ []) []
      (λ d. single-IsListed (profiles_of d) (item 5) refl refl) (λ d. omega arith)

step_pkg_audit_iff_example :
    (report : Audit) × ((step_pkg_audit false fleet []).0 ≡ ok report)
    × (IsIn (item 1) report.inert
        ↔ (IsIn (item 1) two_apps × IsAudited false (item 1) × (¬ (IsCarried 1 (item 9 ∷ [])))))
step_pkg_audit_iff_example =
    step_pkg_audit_iff fleet false (item 9 ∷ []) two_apps [] (item 1)
      (single-IsListed all_groups (item 9) refl refl) apps-IsListed (omega arith) (omega arith)

abbrev attached_fleet : History
attached_fleet = (step_pkg_attach (codes "2") none false fleet []).1

fleet_attaches : step_pkg_attach (codes "2") none false fleet [] ≡ (ok tt, attached_fleet)
unfolding step_pkg_attach ◌>>=◌ ask of_secret http_call pure done call request request_loop send
    is_retry_status raise_for_status get_assignment_group assignment_group_device_ids of_http
    as_group paginated no_items apps as_page last_id pages_loop assignment_group_app_ids is_decimal
    in_digits to_int signed digits_from digit_value or_group is_member resolve_app choose_app
    is_digits by_number app_with_id or_no_app attach is_empty strip is_space strip_left
fleet_attaches = refl

step_pkg_attach-IsAttached_example : IsAttached fleet (codes "2") 2417981 [] attached_fleet
unfolding or_group
step_pkg_attach-IsAttached_example =
    step_pkg_attach-IsAttached fleet (codes "2") none false [] attached_fleet fleet_attaches
