-- ===== src/Clients/SimpleMdm/Pages.antt =====
-- simplemdm.py: `_paginated`, the listings, and the writes that the fleet commands make.
use relops_bootstrap.Prelude.{
  ℕ, zero, suc, Bool, true, false, ◌||◌, not, Option, none, some, List, [], ◌∷◌, ◌++◌, Text, codes,
  text_eq, if◌then◌else◌,
}
use relops_bootstrap.Effects.{
  Exec, pure, raise, ask, done, ◌>>=◌, Item, Listing, profiles_of, all_groups, all_apps, add_app,
  list_page, update_os as update_request, Body, page, other_body, reprovision_error, value_error,
  runtime_error, protected_group, bad_reply, bad_update_mode, bad_version_type, out_of_fuel,
}
use relops_bootstrap.Clients.SimpleMdm.{request, get_assignment_group, is_protected}

-- `page_json.get("data", [])` and `page_json.get("has_more")`
unfoldable pub as_page : Body → Exec (List Item × Bool)
as_page (page items more) = pure (items, more)
as_page other_body = pure ([], false)
as_page _ = raise (runtime_error bad_reply)

-- `page[-1]["id"]`, of a page that is not empty.
unfoldable pub last_id : Option ℕ → List Item → Option ℕ
last_id start [] = start
last_id start (i ∷ is) = last_id (some i.id) is

unfoldable pub no_items : List Item → Bool
no_items [] = true
no_items (i ∷ is) = false

-- The loop: where the next page starts, and what was gathered.
unfoldable pub pages_loop : ℕ → Listing → Option ℕ → List Item → Exec (List Item)
unfolding as_page last_id no_items
pages_loop zero path start out = raise out_of_fuel
pages_loop (suc fuel) path start out = do
  r ← request (list_page path start)
  (items, more) ← as_page r.body
  if not more || no_items items
      then pure (out ++ items)
      else pages_loop fuel path (last_id start items) (out ++ items)

-- `_paginated`
unfoldable pub paginated : Listing → Exec (List Item)
unfolding pages_loop
paginated path = do fuel ← ask (λ w. w.page_fuel); pages_loop fuel path none []

-- The profiles of a device, each with its id and name.
unfoldable pub device_profiles : ℕ → Exec (List Item)
device_profiles id = paginated (profiles_of id)

unfoldable pub assignment_groups : Exec (List Item)
assignment_groups = paginated all_groups

unfoldable pub apps : Exec (List Item)
apps = paginated all_apps

unfoldable pub assignment_group_app_ids : ℕ → Exec (List ℕ)
assignment_group_app_ids id = do g ← get_assignment_group id; pure g.apps

unfoldable pub add_app_to_assignment_group : ℕ → ℕ → Exec (Unit {0})
add_app_to_assignment_group group_id app_id =
    if is_protected group_id
    then raise (reprovision_error protected_group)
    else (do r ← request (add_app group_id app_id); done)

unfoldable pub is_update_mode : Text → Bool
is_update_mode s =
    text_eq s (codes "smart_update")
    || text_eq s (codes "download_only")
    || text_eq s (codes "notify_only")
    || text_eq s (codes "install_asap")
    || text_eq s (codes "force_update")

unfoldable pub is_version_type : Text → Bool
is_version_type s =
    text_eq s (codes "latest_minor_version") || text_eq s (codes "latest_major_version")

unfoldable pub update_os : ℕ → Text → Text → Exec (Unit {0})
unfolding is_update_mode is_version_type
update_os device_id mode version =
    if not (is_update_mode mode)
    then raise (value_error bad_update_mode)
    else if not (is_version_type version)
    then raise (value_error bad_version_type)
    else (do r ← request (update_request device_id mode version); done)
