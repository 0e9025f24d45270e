-- ===== src/Workflow/Parity.antt =====
-- `step_group_parity`: do the devices of a group have the profiles of a working production host, and the
-- groups that their peers are in?
use relops_bootstrap.Prelude.{
  ℕ, Bool, false, ◌||◌, Option, none, some, List, [], ◌∷◌, ◌++◌, Text, is_empty, take, ◌==◌,
  if◌then◌else◌,
}
use relops_bootstrap.Effects.{
  Exec, pure, raise, ask, done, ◌>>=◌, ◌>>◌, Item, reprovision_error, same_group, empty_reference,
  no_baseline, empty_group, parity_gap,
}
use relops_bootstrap.Clients.SimpleMdm.{get_assignment_group, assignment_group_device_ids}
use relops_bootstrap.Clients.SimpleMdm.Pages.{device_profiles, no_items}
use relops_bootstrap.Workflow.Peers.{
  Gap, membership_outliers, sort_gaps, report_gaps, report_outliers,
}
use relops_bootstrap.Workflow.Context.{resolve_offline}
use relops_bootstrap.Workflow.Group.{or_group, is_nil, resolve_mdm_device}

-- `pid in have`
unfoldable pub has_item : ℕ → List Item → Bool
has_item id [] = false
has_item id (i ∷ is) = id == i.id || has_item id is

-- `{i: n for i, n in baseline.items() if i in profiles}`
unfoldable pub common : List Item → List Item → List Item
unfolding has_item
common [] profiles = []
common (i ∷ baseline) profiles =
    let rest = common baseline profiles in if has_item i.id profiles then i ∷ rest else rest

-- The baseline so far, narrowed to what each further device has.
unfoldable pub narrow : List Item → List ℕ → Exec (List Item)
unfolding common
narrow baseline [] = pure baseline
narrow baseline (d ∷ ds) = do profiles ← device_profiles d; narrow (common baseline profiles) ds

unfoldable pub baseline_of : List ℕ → Exec (List Item)
unfolding narrow
baseline_of [] = raise (reprovision_error empty_reference)
baseline_of (d ∷ ds) = do profiles ← device_profiles d; narrow profiles ds

-- `gaps.setdefault(pid, (pname, []))[1].append(label)`
unfoldable pub add_gap : Item → ℕ → List Gap → List Gap
add_gap i d [] = record { item = i; lacking = d ∷ [] } ∷ []
add_gap i d (g ∷ gaps) =
    let rest = add_gap i d gaps in
    if i.id == g.item.id
    then record { item = g.item; lacking = g.lacking ++ (d ∷ []) } ∷ gaps
    else g ∷ rest

-- One device against the baseline.
unfoldable pub compare_device : List Item → List Item → ℕ → List Gap → List Gap
unfolding has_item add_gap
compare_device [] have d gaps = gaps
compare_device (i ∷ baseline) have d gaps =
    compare_device baseline have d (if has_item i.id have then gaps else add_gap i d gaps)

unfoldable pub compare_devices : List Item → List ℕ → List Gap → Exec (List Gap)
unfolding compare_device
compare_devices baseline [] gaps = pure gaps
compare_devices baseline (d ∷ ds) gaps = do
  have ← device_profiles d
  compare_devices baseline ds (compare_device baseline have d gaps)

-- `if max_devices: ids = ids[:max_devices]`
unfoldable pub at_most : ℕ → List ℕ → List ℕ
at_most max_devices ids = if max_devices == 0 then ids else take max_devices ids

-- `if hostname:`
unfoldable pub filled_name : Option Text → Option Text
filled_name none = none
filled_name (some s) = if is_empty s then none else some s

-- The devices that are checked: those of a named host, or of the group.
unfoldable pub targets_of : Option Text → ℕ → ℕ → Exec (List ℕ)
unfolding is_nil at_most
targets_of (some hostname) gid max_devices = do
  ctx ← resolve_offline hostname
  d ← resolve_mdm_device ctx
  pure (d.id ∷ [])
targets_of none gid max_devices = do
  group ← get_assignment_group gid
  ids ← assignment_group_device_ids gid
  if is_nil ids then raise (reprovision_error empty_group) else pure (at_most max_devices ids)

unfoldable pub outliers_of : Option Text → ℕ → List ℕ → Exec (List Gap)
outliers_of (some hostname) gid targets = pure []
outliers_of none gid targets = membership_outliers gid targets

-- The end of the step: the report and the failure, unless nothing is amiss.
unfoldable pub conclude : List Gap → List Gap → Exec (Unit {0})
conclude [] [] = done
conclude gaps others = do
  report_gaps (sort_gaps gaps)
  report_outliers (sort_gaps others)
  raise (reprovision_error parity_gap)

-- The step after the arguments have been filled in.
unfoldable pub check_parity : ℕ → ℕ → ℕ → ℕ → Option Text → Exec (Unit {0})
unfolding targets_of outliers_of conclude baseline_of compare_devices
check_parity gid ref_gid n_sample max_devices hostname = do
  reference ← get_assignment_group ref_gid
  ids ← assignment_group_device_ids ref_gid
  baseline ← baseline_of (take n_sample ids)
  if no_items baseline then raise (reprovision_error no_baseline) else (do
    targets ← targets_of hostname gid max_devices
    gaps ← compare_devices baseline targets []
    others ← outliers_of hostname gid targets
    conclude gaps others)

unfoldable pub step_group_parity :
    Option ℕ → Option ℕ → Option ℕ → ℕ → Option Text → Exec (Unit {0})
unfolding or_group filled_name check_parity
step_group_parity group_id reference_group_id reference_sample max_devices hostname = do
  s ← ask (λ w. w.settings)
  let gid = or_group group_id s.bootstrap_group_id
  let ref_gid = or_group reference_group_id s.reference_group_id
  let n_sample = or_group reference_sample s.group_parity_reference_sample
  if gid == ref_gid
      then raise (reprovision_error same_group)
      else check_parity gid ref_gid n_sample max_devices (filled_name hostname)
