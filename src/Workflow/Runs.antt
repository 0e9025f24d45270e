-- ===== src/Workflow/Runs.antt =====
-- `reprovision` and `provision`: the steps in order.
use relops_bootstrap.Prelude.{Bool, ◌&&◌, not, none, [], Text, if◌then◌else◌}
use relops_bootstrap.Effects.{
  Exec, pure, raise, done, when, ◌>>=◌, ◌>>◌, reprovision_error, watch_needs_wait,
}
use relops_bootstrap.Workflow.Context.{HostContext, resolve, resolve_offline}
use relops_bootstrap.Workflow.Hold.{
  step_quarantine, step_drain, step_quarantine_on_register, step_unquarantine, require_credentials,
}
use relops_bootstrap.Workflow.Token.{step_mint, step_escrow_bst}
use relops_bootstrap.Workflow.Erase.{step_wipe, step_wait_for_reenroll}
use relops_bootstrap.Workflow.Gates.{
  step_preflight, step_wait_for_bootstrap_pkg, step_wait_for_sentinel,
}
use relops_bootstrap.Workflow.Capture.{step_screencapture_grant}

-- `if ctx.registered: quarantine, drain`
unfoldable pub take_out : HostContext → Exec (Unit {0})
take_out ctx = when ctx.registered (do step_quarantine ctx none []; step_drain ctx)

unfoldable pub wipe_phase : HostContext → Bool → Exec HostContext
wipe_phase ctx skip_wipe =
    if skip_wipe
    then pure ctx
    else (do wiped ← step_wipe ctx; step_wait_for_reenroll wiped; pure wiped)

-- The steps from the mint on.
unfoldable pub bootstrap_phase : HostContext → Exec (Unit {0})
bootstrap_phase ctx = do
  step_mint ctx
  step_escrow_bst ctx
  step_wait_for_sentinel ctx
  step_screencapture_grant ctx

unfoldable pub reprovision : Text → Bool → Bool → Exec (Unit {0})
unfolding take_out wipe_phase bootstrap_phase
reprovision hostname skip_wipe unquarantine = do
  ctx ← resolve hostname
  take_out ctx
  wiped ← wipe_phase ctx skip_wipe
  bootstrap_phase wiped
  when (unquarantine && wiped.registered) (step_unquarantine wiped)

-- The checks before anything is done.
unfoldable pub provision_checks : Bool → Bool → Exec (Unit {0})
provision_checks wait quarantine_on_register =
    if quarantine_on_register && not wait
    then raise (reprovision_error watch_needs_wait)
    else when quarantine_on_register require_credentials

unfoldable pub provision_wait : HostContext → Exec (Unit {0})
provision_wait ctx = do
  step_wait_for_bootstrap_pkg ctx
  step_wait_for_sentinel ctx
  step_screencapture_grant ctx

unfoldable pub watch : HostContext → Exec (Unit {0})
watch ctx = do held ← step_quarantine_on_register ctx none; done

unfoldable pub provision : Text → Text → Bool → Bool → Bool → Exec (Unit {0})
unfolding provision_checks provision_wait watch
provision hostname expected_os require_sip_disabled wait quarantine_on_register = do
  provision_checks wait quarantine_on_register
  ctx ← resolve_offline hostname
  step_preflight ctx expected_os require_sip_disabled
  step_mint ctx
  step_escrow_bst ctx
  when wait (provision_wait ctx)
  when quarantine_on_register (watch ctx)
