-- ===== src/Workflow/Total.antt =====
-- The runs end: no loop of theirs runs out of the model's fuel.
use relops_bootstrap.Prelude.{◌≢◌, Bool, Option, none, some, Text, ℕ}
use relops_bootstrap.Effects.{World, History, IsClock, Failure, out_of_fuel, err}
use relops_bootstrap.Effects.Ends.{Ends}
use relops_bootstrap.Clients.SimpleMdm
use relops_bootstrap.Clients.Ends.{Ends-request}
use relops_bootstrap.Workflow.Context.{HostContext}
use relops_bootstrap.Workflow.Ends.{IsPaced, steps_end, Ends-or_value_error}
use relops_bootstrap.Workflow.Erase.{
  refuse_unescrowed, escrow_gate, confirm_idle, idle_gate, worker_gate, erase, erase_known,
  step_wipe,
}
use relops_bootstrap.Workflow.Runs.{
  take_out, wipe_phase, bootstrap_phase, reprovision, provision_checks, provision_wait, watch,
  provision,
}

module _ {w : World} (clock : IsClock w) (paced : IsPaced w.settings) where
  Ends-refuse_unescrowed : (e : Failure) → e ≢ out_of_fuel → Ends w (refuse_unescrowed e)
  unfolding refuse_unescrowed
  Ends-refuse_unescrowed e ne = search steps_end

  Ends-escrow_gate : (ctx : HostContext) → Ends w (escrow_gate ctx)
  unfolding escrow_gate
  Ends-escrow_gate ctx = search (steps_end, Ends-refuse_unescrowed) depth 12

  Ends-confirm_idle : (ctx : HostContext) → Ends w (confirm_idle ctx)
  unfolding confirm_idle
  Ends-confirm_idle ctx = search steps_end

  Ends-idle_gate : (ctx : HostContext) → Ends w (idle_gate ctx)
  unfolding idle_gate
  Ends-idle_gate ctx = search (steps_end, Ends-confirm_idle)

  Ends-worker_gate : (ctx : HostContext) → Ends w (worker_gate ctx)
  unfolding worker_gate
  Ends-worker_gate ctx = search (steps_end, Ends-or_value_error)

  Ends-wipe : (device : ℕ) → Ends w (SimpleMdm.wipe device)
  unfolding SimpleMdm.wipe
  Ends-wipe device = search (steps_end, Ends-request)

  Ends-erase_known : (ctx : HostContext) (o : Option ℕ) → Ends w (erase_known ctx o)
  unfolding erase_known erase
  Ends-erase_known ctx none = search steps_end
  Ends-erase_known ctx (some device) =
      search (steps_end, Ends-escrow_gate, Ends-idle_gate, Ends-worker_gate, Ends-wipe) depth 14

  Ends-step_wipe : (ctx : HostContext) → Ends w (step_wipe ctx)
  unfolding step_wipe
  Ends-step_wipe ctx = Ends-erase_known ctx _

  Ends-take_out : (ctx : HostContext) → Ends w (take_out ctx)
  unfolding take_out
  Ends-take_out ctx = search steps_end

  Ends-wipe_phase : (ctx : HostContext) (skip : Bool) → Ends w (wipe_phase ctx skip)
  unfolding wipe_phase
  Ends-wipe_phase ctx skip = search (steps_end, Ends-step_wipe)

  Ends-bootstrap_phase : (ctx : HostContext) → Ends w (bootstrap_phase ctx)
  unfolding bootstrap_phase
  Ends-bootstrap_phase ctx = search steps_end

  Ends-reprovision :
      (hostname : Text) (skip unquarantine : Bool) → Ends w (reprovision hostname skip unquarantine)
  unfolding reprovision
  Ends-reprovision hostname skip unquarantine =
      search (steps_end, Ends-take_out, Ends-wipe_phase, Ends-bootstrap_phase) depth 14

  Ends-provision_checks : (wait q : Bool) → Ends w (provision_checks wait q)
  unfolding provision_checks
  Ends-provision_checks wait q = search steps_end

  Ends-provision_wait : (ctx : HostContext) → Ends w (provision_wait ctx)
  unfolding provision_wait
  Ends-provision_wait ctx = search steps_end

  Ends-watch : (ctx : HostContext) → Ends w (watch ctx)
  unfolding watch
  Ends-watch ctx = search steps_end

  Ends-provision :
      (hostname expected_os : Text) (sip wait q : Bool)
      → Ends w (provision hostname expected_os sip wait q)
  unfolding provision
  Ends-provision hostname expected_os sip wait q =
      search (steps_end, Ends-provision_checks, Ends-provision_wait, Ends-watch) depth 14

-- In a world whose clock never goes back and whose sleeps last, and with settings whose polls pause,
-- `reprovision` ends after any history: the fuel of its loops is enough, so what it gives is its own
-- success or one of its own failures.
pub reprovision-ends :
    (w : World)
    → IsClock w
    → IsPaced w.settings
    → (hostname : Text) (skip_wipe unquarantine : Bool) (h : History)
    → (reprovision hostname skip_wipe unquarantine w h).0 ≢ err out_of_fuel
reprovision-ends w clock paced hostname skip_wipe unquarantine h =
    (Ends-reprovision clock paced hostname skip_wipe unquarantine).at h

-- Under the same conditions `provision` ends, whatever its options.
pub provision-ends :
    (w : World)
    → IsClock w
    → IsPaced w.settings
    → (hostname expected_os : Text) (sip wait q : Bool) (h : History)
    → (provision hostname expected_os sip wait q w h).0 ≢ err out_of_fuel
provision-ends w clock paced hostname expected_os sip wait q h =
    (Ends-provision clock paced hostname expected_os sip wait q).at h
