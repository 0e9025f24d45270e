-- ===== src/Tests/Steps.antt =====
-- The steps and the runs in the world of one idle M4 host.
use relops_bootstrap.Clients.Ssh.{
  wait_for_sshd, sshd_round, reached, secure_token_status, run, check_reply,
}
use relops_bootstrap.Workflow.Token.{is_enabled}
use relops_bootstrap.Clients.Ssh.{check_reply, run}
use relops_bootstrap.Prelude.{
  ◌+◌, strip, arith, ℕ, ◌+◌, ◌≤◌, ◌≡◌, ◌≢◌, refl, true, false, Option, none, some, List, [], ◌∷◌,
  Text, codes, take, contains, is_empty, text_eq,
}
use relops_bootstrap.Effects.{
  History, ok, err, out_of_fuel, search_devices, catch, done, of_tc, task_call, worker_call, ◌>>=◌,
  ask, monotonic, poll_for, sleep, forget_host_key, pure, ssh_call, http_call, of_secret,
  quarantine_call, connect, after_round, poll, call,
}
use relops_bootstrap.Clients.Taskcluster.{
  is_currently_busy, find_registered_pool, any_holds, get_task_status, get_worker, holds,
  task_holds, is_404, registered_in, quarantine,
}
use relops_bootstrap.Clients.Taskcluster.Busy.{Recent, AllClear, is_currently_busy-evidence}
use relops_bootstrap.Clients.Taskcluster.Pools.{Tried, find_registered_pool-Tried}
use relops_bootstrap.Clients.SimpleMdm.{
  request, get_device, is_retry_status, request_loop, send, raise_for_status, wipe,
}
use relops_bootstrap.Clients.SimpleMdm.Retry.{exchanges, request-exchanges}
use relops_bootstrap.Workflow.Erase.{step_wipe, confirm_idle, escrow_gate, idle_gate, worker_gate}
use relops_bootstrap.Workflow.Hold.{
  step_quarantine_on_register, step_drain, drain_round, drained, registration_round,
  require_credentials, watch_budget, quarantine_until, registered_pool, step_quarantine,
}
use relops_bootstrap.Workflow.Runs.{reprovision, provision}
use relops_bootstrap.Workflow.Ends.{IsPaced}
use relops_bootstrap.Workflow.Evidence.{Guarded}
use relops_bootstrap.Workflow.Wiping.{MayWipe, step_wipe-Guarded}
use relops_bootstrap.Workflow.Safety.{erases, RunMayWipe, reprovision-Guarded, provision-erases}
use relops_bootstrap.Workflow.Draining.{IdleRun, step_drain-IdleRun}
use relops_bootstrap.Workflow.Context.{HostContext, candidate_pools, or_value_error}
use relops_bootstrap.Workflow.Token.{step_mint}
use relops_bootstrap.Workflow.Minting.{IsMinted, step_mint-IsMinted}
use relops_bootstrap.Workflow.Holding.{IsHeld, step_quarantine_on_register-IsHeld}
use relops_bootstrap.Workflow.Total.{reprovision-ends, provision-ends}
use relops_bootstrap.Tests.Lab.{lab, lab_ctx, lab_host, lab_pool, lab-IsClock}

lab-IsPaced : IsPaced lab.settings
lab-IsPaced = record {
  drain = omega arith;
  register = omega arith;
  bootstrap = omega arith;
  payload = omega arith;
}

step_wipe-Guarded_example : Guarded (MayWipe lab lab_ctx []) [] (step_wipe lab_ctx lab []).1
step_wipe-Guarded_example = step_wipe-Guarded lab lab_ctx []

reprovision-Guarded_example :
    Guarded (RunMayWipe lab lab_host false []) [] (reprovision lab_host false true lab []).1
reprovision-Guarded_example = reprovision-Guarded lab lab_host false true []

provision-erases_example : erases (provision lab_host [] true true true lab []).1 ≡ []
provision-erases_example = provision-erases lab lab_host [] true true true []

reprovision-ends_example : (reprovision lab_host false true lab []).0 ≢ err out_of_fuel
reprovision-ends_example = reprovision-ends lab lab-IsClock lab-IsPaced lab_host false true []

provision-ends_example : (provision lab_host [] true true true lab []).0 ≢ err out_of_fuel
provision-ends_example = provision-ends lab lab-IsClock lab-IsPaced lab_host [] true true true []

request-exchanges_example :
    exchanges (request (search_devices lab_host) lab []).1 ≤ exchanges [] + 6
request-exchanges_example = request-exchanges lab (search_devices lab_host) []

abbrev checked : History
checked = (is_currently_busy lab_pool (codes "mdc1") lab_host lab []).1

lab_idle : is_currently_busy lab_pool (codes "mdc1") lab_host lab [] ≡ (ok false, checked)
unfolding is_currently_busy ◌>>=◌ catch get_worker contains done worker_call of_tc text_eq any_holds
    task_holds is_empty get_task_status task_call holds
lab_idle = refl

is_currently_busy-evidence_example :
    (tasks : List (Option Text)) × Recent lab_pool (codes "mdc1") lab_host tasks checked
    × AllClear lab_host (take 5 tasks) checked
is_currently_busy-evidence_example =
    is_currently_busy-evidence lab lab_pool (codes "mdc1") lab_host [] checked lab_idle

abbrev drained_lab : History
drained_lab = (step_drain lab_ctx lab []).1

lab_drains : step_drain lab_ctx lab [] ≡ (ok tt, drained_lab)
unfolding step_drain ◌>>=◌ ask poll_for monotonic drain_round is_currently_busy catch get_worker
    contains done worker_call of_tc text_eq any_holds task_holds is_empty get_task_status task_call
    holds sleep drained
lab_drains = refl

step_drain-IdleRun_example : (n : ℕ) × (2 ≤ n) × IdleRun lab lab_ctx n drained_lab
step_drain-IdleRun_example = step_drain-IdleRun lab lab_ctx [] drained_lab lab_drains

abbrev lab_pools : List Text
lab_pools = codes "releng-hardware/gecko-t-osx-2600-m4" ∷ lab_pool ∷ []

abbrev probed : History
probed = (find_registered_pool lab_pools (codes "mdc1") lab_host lab []).1

lab_registered :
    find_registered_pool lab_pools (codes "mdc1") lab_host lab [] ≡ (ok (some lab_pool), probed)
unfolding find_registered_pool ◌>>=◌ registered_in catch get_worker contains done worker_call of_tc
    text_eq is_404
lab_registered = refl

find_registered_pool-Tried_example : Tried (codes "mdc1") lab_host lab_pools (some lab_pool) probed
find_registered_pool-Tried_example =
    find_registered_pool-Tried lab lab_pools (codes "mdc1") lab_host [] probed (some lab_pool)
      lab_registered

-- The idle host is erased, once.
lab-erases : erases (step_wipe lab_ctx lab []).1 ≡ (7, codes "DoNotObliterate") ∷ []
unfolding step_wipe ◌>>=◌ forget_host_key escrow_gate run ssh_call check_reply pure contains done
    idle_gate confirm_idle catch is_currently_busy get_worker worker_call of_tc text_eq any_holds
    task_holds is_empty get_task_status task_call holds worker_gate get_device request request_loop
    send ask of_secret http_call is_retry_status raise_for_status wipe
lab-erases = refl

abbrev lab_fresh : HostContext
lab_fresh = record lab_ctx { worker_pool_id = [] }

abbrev held_lab : History
held_lab = (step_quarantine_on_register lab_fresh none lab []).1

lab_holds : step_quarantine_on_register lab_fresh none lab [] ≡ (ok lab_ctx, held_lab)
unfolding step_quarantine_on_register ◌>>=◌ ask require_credentials of_secret is_empty done
    or_value_error candidate_pools text_eq poll_for monotonic watch_budget registration_round
    find_registered_pool registered_in catch get_worker contains worker_call of_tc is_404
    registered_pool step_quarantine quarantine_until quarantine quarantine_call
lab_holds = refl

step_quarantine_on_register-IsHeld_example :
    IsHeld lab lab_fresh lab_pool held_lab
    × (lab_ctx ≡ record lab_fresh { worker_pool_id = lab_pool })
step_quarantine_on_register-IsHeld_example =
    step_quarantine_on_register-IsHeld lab lab_fresh lab_ctx none [] held_lab lab_holds

abbrev minted_lab : History
minted_lab = (step_mint lab_ctx lab []).1

lab_mints : step_mint lab_ctx lab [] ≡ (ok tt, minted_lab)
unfolding step_mint ◌>>=◌ forget_host_key wait_for_sshd poll_for monotonic sshd_round connect pure
    reached done is_enabled secure_token_status ask run ssh_call check_reply contains after_round
    poll call strip
lab_mints = refl

step_mint-IsMinted_example : IsMinted lab lab_ctx.fqdn minted_lab
step_mint-IsMinted_example = step_mint-IsMinted lab lab_ctx [] minted_lab lab_mints
