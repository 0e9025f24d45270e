-- ===== src/Runner/Jobs.antt =====
-- `_reprovision_exe` and `_job_cmd`.
use relops_bootstrap.Prelude.{
  Bool, Option, none, some, List, [], ◌∷◌, ◌++◌, Text, codes, text_eq, is_empty, decimal,
  if◌then◌else◌,
}
use relops_bootstrap.Runner.Calls.{Config, Params, Job, Site}

unfoldable pub reprovision_exe : Site → Text
reprovision_exe site = if site.has_sibling then site.sibling else codes "reprovision"

-- `job.get("action") or "reprovision"`
unfoldable pub action_of : Job → Text
action_of job = if is_empty job.action then codes "reprovision" else job.action

-- `if value: cmd += [flag, value]`
unfoldable pub with_value : Text → Text → List Text
with_value flag value = if is_empty value then [] else flag ∷ value ∷ []

-- `if set: cmd.append(flag)`
unfoldable pub with_flag : Text → Bool → List Text
with_flag flag set = if set then flag ∷ [] else []

unfoldable pub quarantine_args : Params → List Text
unfolding with_value
quarantine_args params =
    with_value (codes "--until") params.until ++ with_value (codes "--info") params.info

unfoldable pub builder_args : Params → List Text
unfolding with_flag
builder_args params =
    with_flag (codes "--dry-run") params.dry_run
    ++ with_flag (codes "--unquarantine") params.unquarantine

unfoldable pub tart_args : Params → List Text
unfolding with_value with_flag
tart_args params =
    with_value (codes "--branch") params.branch
    ++ with_value (codes "--min-os") params.min_os
    ++ with_flag (codes "--puppet-only") params.puppet_only

-- What follows the executable; `none` is the `ValueError` of an unknown action.
unfoldable pub job_args : Config → Text → Job → Option (List Text)
unfolding action_of quarantine_args builder_args tart_args with_flag
job_args config host job =
    let action = action_of job in
    if text_eq action (codes "quarantine")
    then some (codes "quarantine" ∷ host ∷ quarantine_args job.params)
    else if text_eq action (codes "unquarantine")
    then some (codes "unquarantine" ∷ host ∷ [])
    else if text_eq action (codes "builder-upgrade")
    then some
        (codes "builder-upgrade" ∷ host ∷ codes "--job" ∷ decimal job.id ∷ builder_args job.params)
    else if text_eq action (codes "tart-host-update")
    then some
        (codes "tart-host-update" ∷ host ∷ codes "--job" ∷ decimal job.id ∷ tart_args job.params)
    else if text_eq action (codes "reprovision")
    then some (codes "run" ∷ host ∷ with_flag (codes "--unquarantine") config.unquarantine)
    else none

-- `cmd = [exe, ...]`
unfoldable pub with_exe : Text → Option (List Text) → Option (List Text)
with_exe exe none = none
with_exe exe (some args) = some (exe ∷ args)

-- The command line of the job.
unfoldable pub job_cmd : Site → Text → Job → Option (List Text)
unfolding job_args reprovision_exe with_exe
job_cmd site host job = with_exe (reprovision_exe site) (job_args site.config host job)
