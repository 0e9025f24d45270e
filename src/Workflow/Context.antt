-- ===== src/Workflow/Context.antt =====
-- `HostContext`, `candidate_pools`, `resolve` and `resolve_offline`.
use relops_bootstrap.Prelude.{
  ℕ, Bool, true, false, Option, none, some, List, [], ◌∷◌, ◌++◌, map, Text, codes, text_eq,
  if◌then◌else◌,
}
use relops_bootstrap.Hostnames.{validate_short, role_for_hostname}
use relops_bootstrap.Effects.{
  Exec, pure, raise, ◌>>=◌, Reason, value_error, bad_hostname, no_role, no_pool, Device,
}
use relops_bootstrap.Clients.Taskcluster.{find_registered_pool}
use relops_bootstrap.Clients.SimpleMdm.{find_device_by_name}

pub record HostContext : Type 0 where
  pub hostname : Text
  pub fqdn : Text
  pub role : Text
  pub worker_pool_id : Text
  pub worker_group : Text
  pub simplemdm_device_id : Option ℕ
  pub pre_wipe_enrolled_at : Option Text
  pub registered : Bool

-- `_PROD_POOLS_BY_ROLE`
unfoldable pub prod_pools : Text → List Text
prod_pools role =
    if text_eq role (codes "gecko_t_osx_1500_m4")
    then codes "releng-hardware/gecko-t-osx-2600-m4"
      ∷ codes "releng-hardware/gecko-t-osx-1500-m4"
      ∷ []
    else if text_eq role (codes "gecko_t_osx_1400_r8")
    then codes "releng-hardware/gecko-t-osx-1400-r8" ∷ []
    else []

unfoldable pub pools_of : List Text → Option (List Text)
pools_of [] = none
pools_of (p ∷ ps) = some (map (λ (q : Text). q ++ codes "-staging") (p ∷ ps) ++ (p ∷ ps))

-- `none` is its `ValueError`.
unfoldable pub candidate_pools : Text → Option (List Text)
unfolding prod_pools pools_of
candidate_pools role = pools_of (prod_pools role)

unfoldable pub or_value_error : {A : Type 0} → Reason → Option A → Exec A
or_value_error r none = raise (value_error r)
or_value_error r (some a) = pure a

-- `pools[-1]`
unfoldable pub last_pool : List Text → Text
last_pool [] = []
last_pool (p ∷ []) = p
last_pool (p ∷ q ∷ ps) = last_pool (q ∷ ps)

unfoldable pub fqdn_of : Text → Text
fqdn_of hostname = hostname ++ codes ".test.releng.mdc1.mozilla.com"

unfoldable pub or_pool : Option Text → Text → Text
or_pool none base = base
or_pool (some pool) base = pool

unfoldable pub is_some : Option Text → Bool
is_some none = false
is_some (some pool) = true

unfoldable pub device_id : Option Device → Option ℕ
device_id none = none
device_id (some d) = some d.id

unfoldable pub resolve : Text → Exec HostContext
unfolding or_value_error
resolve name = do
  hostname ← or_value_error bad_hostname (validate_short name)
  role ← or_value_error no_role (role_for_hostname hostname)
  pools ← or_value_error no_pool (candidate_pools role)
  found_pool ← find_registered_pool pools (codes "mdc1") hostname
  device ← find_device_by_name hostname
  pure (record {
    hostname = hostname;
    fqdn = fqdn_of hostname;
    role = role;
    worker_pool_id = or_pool found_pool (last_pool pools);
    worker_group = codes "mdc1";
    simplemdm_device_id = device_id device;
    pre_wipe_enrolled_at = none;
    registered = is_some found_pool;
  })

unfoldable pub resolve_offline : Text → Exec HostContext
unfolding or_value_error
resolve_offline name = do
  hostname ← or_value_error bad_hostname (validate_short name)
  role ← or_value_error no_role (role_for_hostname hostname)
  pure (record {
    hostname = hostname;
    fqdn = fqdn_of hostname;
    role = role;
    worker_pool_id = [];
    worker_group = codes "mdc1";
    simplemdm_device_id = none;
    pre_wipe_enrolled_at = none;
    registered = false;
  })
