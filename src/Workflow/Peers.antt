-- ===== src/Workflow/Peers.antt =====
-- `_membership_outliers` and `_device_label`: which devices lack a group that their peers are in, and
-- how the devices are named in a report.
use relops_bootstrap.Prelude.{
  ℕ, ◌*◌, List, [], ◌∷◌, ◌++◌, length, take, ltb, leb, ◌==◌, if◌then◌else◌,
}
use relops_bootstrap.Effects.{
  Exec, pure, raise, when, done, catch, is_reprovision_error, ◌>>=◌, ◌>>◌, Item, Failure,
}
use relops_bootstrap.Clients.SimpleMdm.{get_device}
use relops_bootstrap.Clients.SimpleMdm.Pages.{assignment_groups}
use relops_bootstrap.Workflow.Group.{is_nil, is_member}

-- Something that devices lack: a profile, or a group that their peers are in.
pub record Gap : Type 0 where
  pub item : Item
  pub lacking : List ℕ

-- `[d for d in target_ids if d in ids]` and its complement.
unfoldable pub present : List ℕ → List ℕ → List ℕ
unfolding is_member
present ids [] = []
present ids (d ∷ ds) = let rest = present ids ds in if is_member d ids then d ∷ rest else rest

unfoldable pub missing : List ℕ → List ℕ → List ℕ
unfolding is_member
missing ids [] = []
missing ids (d ∷ ds) = let rest = missing ids ds in if is_member d ids then rest else d ∷ rest

-- One group of the loop. The quorum is two thirds of the devices.
unfoldable pub outlier : ℕ → List ℕ → Item → List Gap
unfolding present missing is_nil
outlier gid targets group =
    if group.id == gid
    then []
    else if ltb (3 * length (present group.devices targets)) (2 * length targets)
    then []
    else if is_nil (missing group.devices targets)
    then []
    else record { item = group; lacking = missing group.devices targets } ∷ []

unfoldable pub outliers : ℕ → List ℕ → List Item → List Gap
unfolding outlier
outliers gid targets [] = []
outliers gid targets (g ∷ groups) = outlier gid targets g ++ outliers gid targets groups

unfoldable pub membership_outliers : ℕ → List ℕ → Exec (List Gap)
unfolding outliers
membership_outliers gid targets = do groups ← assignment_groups; pure (outliers gid targets groups)

-- `except ReprovisionError`
unfoldable pub label_anyway : Failure → Exec (Unit {0})
unfolding is_reprovision_error
label_anyway e = if is_reprovision_error e then done else raise e

-- `_device_label`, for the request that it makes.
unfoldable pub device_label : ℕ → Exec (Unit {0})
unfolding label_anyway
device_label id = catch (do d ← get_device id; done) label_anyway

unfoldable pub label_devices : List ℕ → Exec (Unit {0})
unfolding device_label
label_devices [] = done
label_devices (d ∷ ds) = do device_label d; label_devices ds

-- `sorted(…, key=lambda kv: -len(kv[1][1]))`, which is stable.
unfoldable pub insert_gap : Gap → List Gap → List Gap
insert_gap g [] = g ∷ []
insert_gap g (x ∷ xs) =
    let rest = insert_gap g xs in
    if leb (length x.lacking) (length g.lacking) then g ∷ x ∷ xs else x ∷ rest

unfoldable pub sort_gaps : List Gap → List Gap
unfolding insert_gap
sort_gaps [] = []
sort_gaps (g ∷ gaps) = insert_gap g (sort_gaps gaps)

-- The report of the profiles, where few devices are named; that of the groups, where five are.
unfoldable pub report_gaps : List Gap → Exec (Unit {0})
unfolding label_devices
report_gaps [] = done
report_gaps (g ∷ gaps) = do
  when (leb (length g.lacking) 3) (label_devices g.lacking)
  report_gaps gaps

unfoldable pub report_outliers : List Gap → Exec (Unit {0})
unfolding label_devices
report_outliers [] = done
report_outliers (g ∷ gaps) = do label_devices (take 5 g.lacking); report_outliers gaps
