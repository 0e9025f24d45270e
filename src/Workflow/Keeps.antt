-- ===== src/Workflow/Keeps.antt =====
-- The steps of the two runs, but the wipe, keep whatever survives a call that erases nothing.
use relops_bootstrap.Prelude.{ℕ, zero, suc, Bool, true, Option, none, some, List, Text}
use relops_bootstrap.Effects.{World, History, Failure, timeout_error, Reason, Device}
use relops_bootstrap.Effects.Keeps.{Keeps, IsStable, Keeps-bind, Keeps-if, Keeps-pure, Keeps-sleep}
use relops_bootstrap.Clients.Keeps.{
  clients_keep, Keeps-is_currently_busy, Keeps-find_registered_pool, Keeps-file_exists,
}
use relops_bootstrap.Workflow.Context.{HostContext, or_value_error, resolve, resolve_offline}
use relops_bootstrap.Workflow.Hold.{
  in_a_year, quarantine_until, step_quarantine, drain_round, drained, step_drain,
  require_credentials, registered_pool, registration_round, step_quarantine_on_register,
  step_unquarantine,
}
use relops_bootstrap.Workflow.Token.{
  is_enabled, enabled_within, step_mint, add_hint, step_escrow_bst,
}
use relops_bootstrap.Workflow.Erase.{
  get_ctx_device, reenroll_baseline, reenroll_round, reenrolled, step_wait_for_reenroll,
}
use relops_bootstrap.Workflow.Gates.{
  not_up_yet, os_gate, sip_gate, preflight_report, step_preflight, file_round, or_failure,
  step_wait_for_bootstrap_pkg, step_wait_for_sentinel,
}
use relops_bootstrap.Workflow.Capture.{
  or_bad_code, run_screencapture_script, report_grant, grant_loop, step_screencapture_grant,
}

module _ {w : World} {P : History → Type 0} where
  pub Keeps-or_value_error :
      {A : Type 0} (r : Reason) (o : Option A) → Keeps w P (or_value_error r o)
  unfolding or_value_error
  Keeps-or_value_error r none = search clients_keep
  Keeps-or_value_error r (some a) = search clients_keep

  Keeps-in_a_year : Keeps w P in_a_year
  unfolding in_a_year
  Keeps-in_a_year = record { at = λ h p. p }

  Keeps-quarantine_until : (o : Option Text) → Keeps w P (quarantine_until o)
  unfolding quarantine_until
  Keeps-quarantine_until none = Keeps-in_a_year
  Keeps-quarantine_until (some until) = search (clients_keep, Keeps-in_a_year)

  Keeps-drained : (o : Option (Unit {0})) → Keeps w P (drained o)
  unfolding drained
  Keeps-drained none = search clients_keep
  Keeps-drained (some u) = search clients_keep

  Keeps-registered_pool : (o : Option Text) → Keeps w P (registered_pool o)
  unfolding registered_pool
  Keeps-registered_pool none = search clients_keep
  Keeps-registered_pool (some pool) = search clients_keep

  Keeps-reenrolled : (o : Option Device) → Keeps w P (reenrolled o)
  unfolding reenrolled
  Keeps-reenrolled none = search clients_keep
  Keeps-reenrolled (some d) = search clients_keep

  Keeps-or_failure : (f : Failure) (o : Option (Unit {0})) → Keeps w P (or_failure f o)
  unfolding or_failure
  Keeps-or_failure f none = search clients_keep
  Keeps-or_failure f (some u) = search clients_keep

  Keeps-or_bad_code : (o : Option (Bool × ℕ)) → Keeps w P (or_bad_code o)
  unfolding or_bad_code
  Keeps-or_bad_code none = search clients_keep
  Keeps-or_bad_code (some rc) = search clients_keep

  Keeps-report_grant : (rc : Bool × ℕ) → Keeps w P (report_grant rc)
  unfolding report_grant
  Keeps-report_grant rc = search clients_keep

  Keeps-not_up_yet : (e : Failure) → Keeps w P (not_up_yet e)
  unfolding not_up_yet
  Keeps-not_up_yet (timeout_error r) = search clients_keep
  Keeps-not_up_yet _ = search clients_keep

  pub Keeps-add_hint : (e : Failure) → Keeps w P (add_hint e)
  unfolding add_hint
  Keeps-add_hint e = search clients_keep

ruleset parts_keep = (
  clients_keep, Keeps-or_value_error, Keeps-quarantine_until, Keeps-drained, Keeps-registered_pool,
  Keeps-reenrolled, Keeps-or_failure, Keeps-or_bad_code, Keeps-report_grant, Keeps-not_up_yet,
  Keeps-add_hint,
)

module _ {w : World} {P : History → Type 0} where
  pub Keeps-require_credentials : Keeps w P require_credentials
  unfolding require_credentials
  Keeps-require_credentials = search parts_keep

  pub Keeps-resolve_offline : (name : Text) → Keeps w P (resolve_offline name)
  unfolding resolve_offline
  Keeps-resolve_offline name = search parts_keep

module _ {w : World} {P : History → Type 0} (st : IsStable P) where
  pub Keeps-resolve : (name : Text) → Keeps w P (resolve name)
  unfolding resolve
  Keeps-resolve name = search parts_keep depth 12

  pub Keeps-step_quarantine :
      (ctx : HostContext) (until : Option Text) (info : Text)
      → Keeps w P (step_quarantine ctx until info)
  unfolding step_quarantine
  Keeps-step_quarantine ctx until info = search parts_keep

  pub Keeps-drain_round : (ctx : HostContext) (n : ℕ) → Keeps w P (drain_round ctx n)
  unfolding drain_round
  Keeps-drain_round ctx n = search parts_keep

  pub Keeps-step_drain : (ctx : HostContext) → Keeps w P (step_drain ctx)
  unfolding step_drain
  Keeps-step_drain ctx = search (parts_keep, Keeps-drain_round)

  pub Keeps-registration_round :
      (ctx : HostContext) (pools : List Text) (u : Unit {0})
      → Keeps w P (registration_round ctx pools u)
  unfolding registration_round
  Keeps-registration_round ctx pools u = search parts_keep

  pub Keeps-step_quarantine_on_register :
      (ctx : HostContext) (o : Option ℕ) → Keeps w P (step_quarantine_on_register ctx o)
  unfolding step_quarantine_on_register
  Keeps-step_quarantine_on_register ctx o =
      search
        (parts_keep, Keeps-require_credentials, Keeps-registration_round, Keeps-step_quarantine)
        depth 12

  pub Keeps-step_unquarantine : (ctx : HostContext) → Keeps w P (step_unquarantine ctx)
  unfolding step_unquarantine
  Keeps-step_unquarantine ctx = search parts_keep

  Keeps-is_enabled : (fqdn : Text) → Keeps w P (is_enabled fqdn)
  unfolding is_enabled
  Keeps-is_enabled fqdn = search parts_keep

  Keeps-enabled_within : (n : ℕ) (fqdn : Text) → Keeps w P (enabled_within n fqdn)
  unfolding enabled_within
  Keeps-enabled_within zero fqdn = search parts_keep
  Keeps-enabled_within (suc n) fqdn = Keeps-bind _ _ (Keeps-is_enabled fqdn) λ enabled.
      Keeps-if enabled _ _ (Keeps-pure true)
        (Keeps-bind _ _ (Keeps-sleep st 5) (λ u. Keeps-enabled_within n fqdn))

  pub Keeps-step_mint : (ctx : HostContext) → Keeps w P (step_mint ctx)
  unfolding step_mint
  Keeps-step_mint ctx = search (parts_keep, Keeps-is_enabled, Keeps-enabled_within) depth 12

  pub Keeps-step_escrow_bst : (ctx : HostContext) → Keeps w P (step_escrow_bst ctx)
  unfolding step_escrow_bst
  Keeps-step_escrow_bst ctx = search parts_keep depth 12

  Keeps-get_ctx_device : (o : Option ℕ) → Keeps w P (get_ctx_device o)
  unfolding get_ctx_device
  Keeps-get_ctx_device none = search parts_keep
  Keeps-get_ctx_device (some id) = search parts_keep

  Keeps-reenroll_baseline :
      (ctx : HostContext) (o : Option Text) → Keeps w P (reenroll_baseline ctx o)
  unfolding reenroll_baseline
  Keeps-reenroll_baseline ctx none = search (parts_keep, Keeps-get_ctx_device)
  Keeps-reenroll_baseline ctx (some at) = search parts_keep

  pub Keeps-reenroll_round :
      (ctx : HostContext) (o : Option Text) (n : ℕ) → Keeps w P (reenroll_round ctx o n)
  unfolding reenroll_round
  Keeps-reenroll_round ctx o n = search (parts_keep, Keeps-get_ctx_device) depth 12

  pub Keeps-step_wait_for_reenroll : (ctx : HostContext) → Keeps w P (step_wait_for_reenroll ctx)
  unfolding step_wait_for_reenroll
  Keeps-step_wait_for_reenroll ctx =
      search (parts_keep, Keeps-reenroll_baseline, Keeps-reenroll_round) depth 12

  Keeps-os_gate : (ctx : HostContext) (expected : Text) → Keeps w P (os_gate ctx expected)
  unfolding os_gate
  Keeps-os_gate ctx expected = search parts_keep

  Keeps-sip_gate : (ctx : HostContext) (b : Bool) → Keeps w P (sip_gate ctx b)
  unfolding sip_gate
  Keeps-sip_gate ctx b = search parts_keep

  Keeps-preflight_report : (ctx : HostContext) → Keeps w P (preflight_report ctx)
  unfolding preflight_report
  Keeps-preflight_report ctx = search parts_keep depth 12

  pub Keeps-step_preflight :
      (ctx : HostContext) (expected : Text) (b : Bool) → Keeps w P (step_preflight ctx expected b)
  unfolding step_preflight
  Keeps-step_preflight ctx expected b =
      search (parts_keep, Keeps-os_gate, Keeps-sip_gate, Keeps-preflight_report) depth 12

  pub Keeps-file_round :
      (ctx : HostContext) (path : Text) (u : Unit {0}) → Keeps w P (file_round ctx path u)
  unfolding file_round
  Keeps-file_round ctx path u = search parts_keep

  pub Keeps-step_wait_for_bootstrap_pkg :
      (ctx : HostContext) → Keeps w P (step_wait_for_bootstrap_pkg ctx)
  unfolding step_wait_for_bootstrap_pkg
  Keeps-step_wait_for_bootstrap_pkg ctx = search (parts_keep, Keeps-file_round) depth 12

  pub Keeps-step_wait_for_sentinel : (ctx : HostContext) → Keeps w P (step_wait_for_sentinel ctx)
  unfolding step_wait_for_sentinel
  Keeps-step_wait_for_sentinel ctx = search (parts_keep, Keeps-file_round) depth 12

  Keeps-run_screencapture_script : (ctx : HostContext) → Keeps w P (run_screencapture_script ctx)
  unfolding run_screencapture_script
  Keeps-run_screencapture_script ctx = search parts_keep depth 14

  Keeps-grant_loop : (n : ℕ) (ctx : HostContext) → Keeps w P (grant_loop n ctx)
  unfolding grant_loop
  Keeps-grant_loop zero ctx = search (parts_keep, Keeps-run_screencapture_script)
  Keeps-grant_loop (suc n) ctx = Keeps-bind _ _ (Keeps-run_screencapture_script ctx) λ ran.
      Keeps-if _ _ _ (Keeps-bind _ _ (Keeps-sleep st 30) (λ u. Keeps-grant_loop n ctx))
        (Keeps-report_grant ran.0)

  pub Keeps-step_screencapture_grant :
      (ctx : HostContext) → Keeps w P (step_screencapture_grant ctx)
  unfolding step_screencapture_grant
  Keeps-step_screencapture_grant ctx = Keeps-grant_loop 9 ctx

pub ruleset steps_keep = (
  clients_keep, Keeps-require_credentials, Keeps-resolve_offline, Keeps-resolve,
  Keeps-step_quarantine, Keeps-step_drain, Keeps-step_quarantine_on_register,
  Keeps-step_unquarantine, Keeps-step_mint, Keeps-step_escrow_bst, Keeps-step_wait_for_reenroll,
  Keeps-step_preflight, Keeps-step_wait_for_bootstrap_pkg, Keeps-step_wait_for_sentinel,
  Keeps-step_screencapture_grant,
)
