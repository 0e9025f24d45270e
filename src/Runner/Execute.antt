-- ===== src/Runner/Execute.antt =====
-- `_run_job` and `_run_job_guarded`.
use relops_bootstrap.Prelude.{
  ℕ, Bool, false, Option, none, some, List, [], ◌∷◌, ◌++◌, Text, codes, is_empty, strip_right,
  decimal, ◌==◌, if◌then◌else◌,
}
use relops_bootstrap.Hostnames.{validate_short}
use relops_bootstrap.Traces.Actions.{pure, raise, ask, call, catch, ◌>>=◌, ◌>>◌}
use relops_bootstrap.Runner.Calls.{
  Job, Child, not_found, refused, garbled, ran, spawned, other_error, failure_text, Site, Task,
}
use relops_bootstrap.Runner.Jobs.{action_of, job_cmd}
use relops_bootstrap.Runner.Api.{post_event, complete_job}

-- The message of `validate_short`.
unfoldable pub hostname_text : Site → Text → Text
hostname_text site host = codes "refusing unrecognised/unsafe hostname: " ++ site.repr host

-- The message of `_job_cmd`.
unfoldable pub action_text : Site → Job → Text
unfolding action_of
action_text site job =
    codes "unknown action "
    ++ site.repr (action_of job)
    ++ codes " -- this runner predates it; update relops-bootstrap"

-- `' '.join(words)`
unfoldable pub join : List Text → Text
join [] = []
join (w ∷ []) = w
join (w ∷ v ∷ ws) = w ++ codes " " ++ join (v ∷ ws)

-- `cmd[1:]`
unfoldable pub tail : List Text → List Text
tail [] = []
tail (w ∷ ws) = ws

-- `subprocess.Popen(cmd, ...)`, its output and its end.
unfoldable pub popen : List Text → Task Child
unfolding call
popen cmd = call (λ site l. site.popen l cmd) (spawned cmd)

-- `for line in proc.stdout`; the last line that is not empty.
unfoldable pub stream : ℕ → Text → List Text → Task Text
unfolding post_event strip_right
stream id last [] = pure last
stream id last (raw ∷ lines) =
    let line = strip_right raw in
    if is_empty line then stream id last lines else (do post_event id line; stream id line lines)

-- `f"{rc}"`
unfoldable pub code_text : Bool → ℕ → Text
code_text negative n = (if negative then codes "-" else []) ++ decimal n

unfoldable pub detail_text : Bool → ℕ → Text → Text
unfolding code_text
detail_text negative n last =
    codes "exit " ++ code_text negative n ++ (if is_empty last then [] else codes " — " ++ last)

unfoldable pub finish : ℕ → Child → Task (Unit {0})
unfolding stream detail_text complete_job
finish id not_found = complete_job id false (codes "reprovision CLI not found on the runner host")
finish id (refused s) = raise (other_error s)
finish id (garbled lines s) = do last ← stream id [] lines; raise (other_error s)
finish id (ran lines negative n) = do
  last ← stream id [] lines
  complete_job id (n == 0) (detail_text negative n last)

unfoldable pub start_text : Text → List Text → Text
unfolding join tail
start_text runner cmd = codes "runner " ++ runner ++ codes " starting: " ++ join (tail cmd)

unfoldable pub run_cmd : ℕ → List Text → Task (Unit {0})
unfolding post_event popen start_text finish
run_cmd id cmd = do
  runner ← ask (λ site. site.config.runner_id)
  post_event id (start_text runner cmd)
  child ← popen cmd
  finish id child

-- `complete_job` with a rejection.
unfoldable pub reject : ℕ → Text → Task (Unit {0})
unfolding complete_job
reject id s = complete_job id false (codes "rejected: " ++ s)

unfoldable pub start_cmd : Site → Job → Option (List Text) → Task (Unit {0})
unfolding action_text reject run_cmd
start_cmd site job none = reject job.id (action_text site job)
start_cmd site job (some cmd) = run_cmd job.id cmd

unfoldable pub run_on : Site → Job → Option Text → Task (Unit {0})
unfolding hostname_text job_cmd reject start_cmd
run_on site job none = reject job.id (hostname_text site job.short)
run_on site job (some host) = start_cmd site job (job_cmd site host job)

unfoldable pub run_job : Job → Task (Unit {0})
unfolding validate_short run_on
run_job job = do site ← ask (λ s. s); run_on site job (validate_short job.short)

unfoldable pub run_job_guarded : Job → Task (Unit {0})
unfolding catch run_job failure_text complete_job
run_job_guarded job =
    catch (run_job job) λ e. complete_job job.id false (codes "runner error: " ++ failure_text e)
