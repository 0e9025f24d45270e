-- ===== src/Workflow/Group.antt =====
-- `_resolve_mdm_device` and `step_add_to_group`: the host joins the bootstrap group.
use relops_bootstrap.Prelude.{
  ℕ, ◌+◌, Bool, true, false, ◌||◌, not, Option, none, some, List, [], ◌∷◌, is_empty, ◌==◌,
  if◌then◌else◌,
}
use relops_bootstrap.Settings.{Settings}
use relops_bootstrap.Effects.{
  Exec, pure, raise, ask, when, done, ◌>>=◌, ◌>>◌, Device, not_ready, reprovision_error,
  serial_not_enrolled, no_device_by_name, group_without_apps,
}
use relops_bootstrap.Clients.SimpleMdm.{
  find_device_by_serial, find_device_by_name, get_assignment_group, assignment_group_device_ids,
  add_device_to_assignment_group, push_apps,
}
use relops_bootstrap.Clients.Ssh.{platform_serial, file_exists}
use relops_bootstrap.Workflow.Context.{HostContext}
use relops_bootstrap.Workflow.Gates.{bootstrap_pkg_payload}
use relops_bootstrap.Workflow.Hold.{step_quarantine_on_register}

unfoldable pub enrolled_by_serial : Option Device → Exec Device
enrolled_by_serial (some d) = pure d
enrolled_by_serial none = raise (not_ready serial_not_enrolled)

unfoldable pub enrolled_by_name : Option Device → Exec Device
enrolled_by_name (some d) = pure d
enrolled_by_name none = raise (not_ready no_device_by_name)

-- `_resolve_mdm_device`
unfoldable pub resolve_mdm_device : HostContext → Exec Device
unfolding enrolled_by_serial enrolled_by_name
resolve_mdm_device ctx = do
  serial ← platform_serial ctx.fqdn
  if not (is_empty serial)
      then (do o ← find_device_by_serial serial; enrolled_by_serial o)
      else (do o ← find_device_by_name ctx.hostname; enrolled_by_name o)

-- `group_id or s.bootstrap_group_id`
unfoldable pub or_group : Option ℕ → ℕ → ℕ
or_group none default = default
or_group (some id) default = if id == 0 then default else id

unfoldable pub is_nil : List ℕ → Bool
is_nil [] = true
is_nil (n ∷ ns) = false

-- `device_id in …`
unfoldable pub is_member : ℕ → List ℕ → Bool
is_member n [] = false
is_member n (m ∷ ms) = n == m || is_member n ms

-- A member is left as it is; its payload is looked for, for the report alone.
unfoldable pub join : HostContext → ℕ → ℕ → Bool → Exec (Unit {0})
join ctx gid device_id true = do landed ← file_exists ctx.fqdn bootstrap_pkg_payload; done
join ctx gid device_id false = do add_device_to_assignment_group gid device_id; push_apps gid

unfoldable pub watch_whole_bootstrap : HostContext → Settings → Exec (Unit {0})
watch_whole_bootstrap ctx s = do
  held ←
      step_quarantine_on_register ctx
        (some (s.bootstrap_max_wait_seconds + s.quarantine_on_register_max_wait_seconds))
  done

unfoldable pub step_add_to_group : HostContext → Option ℕ → Bool → Exec (Unit {0})
unfolding or_group is_nil is_member
step_add_to_group ctx group_id quarantine_on_register = do
  s ← ask (λ w. w.settings)
  let gid = or_group group_id s.bootstrap_group_id
  group ← get_assignment_group gid
  if is_nil group.apps then raise (reprovision_error group_without_apps) else (do
    d ← resolve_mdm_device ctx
    ids ← assignment_group_device_ids gid
    join ctx gid d.id (is_member d.id ids)
    when quarantine_on_register (watch_whole_bootstrap ctx s))
