-- ===== src/Workflow/Ends.antt =====
-- The steps of the two runs end, but the wipe, in a world whose clock goes on and with polls that pause.
use relops_bootstrap.Prelude.{
  ◌+◌, ◌*◌, ℕ, zero, suc, ◌≢◌, ◌<◌, arith, Bool, true, Option, none, some, List, Text,
}
use relops_bootstrap.Effects.{
  pure, IsClock, out_of_fuel, timeout_error, World, Failure, Reason, Device,
}
use relops_bootstrap.Settings.{Settings}
use relops_bootstrap.Effects.Ends.{
  Ends, Time-IsStable, Ends-bind, Ends-if, Ends-pure, Ends-sleep, Ends-done, Ends-poll_for,
  Ends-raise, Ends-ask, Ends-asked, ok-Fits,
}
use relops_bootstrap.Workflow.Keeps.{
  Keeps-drain_round, Keeps-registration_round, Keeps-reenroll_round, Keeps-file_round,
}
use relops_bootstrap.Clients.Ends.{
  clients_end, Ends-is_currently_busy, Ends-find_registered_pool, Ends-file_exists,
}
use relops_bootstrap.Workflow.Context.{HostContext, or_value_error, resolve, resolve_offline}
use relops_bootstrap.Workflow.Hold.{
  in_a_year, quarantine_until, step_quarantine, drain_round, drained, step_drain,
  require_credentials, registered_pool, registration_round, step_quarantine_on_register,
  step_unquarantine,
}
use relops_bootstrap.Workflow.Token.{
  is_enabled, enabled_within, step_mint, add_hint, step_escrow_bst,
}
use relops_bootstrap.Workflow.Erase.{
  get_ctx_device, reenroll_baseline, reenroll_round, reenrolled, step_wait_for_reenroll,
}
use relops_bootstrap.Workflow.Gates.{
  sentinel, bootstrap_pkg_payload, not_up_yet, os_gate, sip_gate, preflight_report, step_preflight,
  file_round, or_failure, step_wait_for_bootstrap_pkg, step_wait_for_sentinel,
}
use relops_bootstrap.Workflow.Capture.{
  or_bad_code, run_screencapture_script, report_grant, grant_loop, step_screencapture_grant,
}

-- The polls of the settings pause.
pub record IsPaced (s : Settings) : Type 0 where
  pub drain : 0 < s.drain_poll_seconds
  pub register : 0 < s.quarantine_on_register_poll_seconds
  pub bootstrap : 0 < s.bootstrap_poll_seconds
  pub payload : 0 < s.bootstrap_pkg_poll_seconds

module _ {w : World} where
  pub Ends-or_value_error : {A : Type 0} (r : Reason) (o : Option A) → Ends w (or_value_error r o)
  unfolding or_value_error
  Ends-or_value_error r none = search clients_end
  Ends-or_value_error r (some a) = search clients_end

  Ends-in_a_year : Ends w in_a_year
  unfolding in_a_year pure
  Ends-in_a_year = record { at = λ h. ok-Fits (w.strftime (w.utc_now h + 365 * 86400)) }

  Ends-quarantine_until : (o : Option Text) → Ends w (quarantine_until o)
  unfolding quarantine_until
  Ends-quarantine_until none = Ends-in_a_year
  Ends-quarantine_until (some until) = search (clients_end, Ends-in_a_year)

  Ends-drained : (o : Option (Unit {0})) → Ends w (drained o)
  unfolding drained
  Ends-drained none = search clients_end
  Ends-drained (some u) = search clients_end

  Ends-registered_pool : (o : Option Text) → Ends w (registered_pool o)
  unfolding registered_pool
  Ends-registered_pool none = search clients_end
  Ends-registered_pool (some pool) = search clients_end

  Ends-reenrolled : (o : Option Device) → Ends w (reenrolled o)
  unfolding reenrolled
  Ends-reenrolled none = search clients_end
  Ends-reenrolled (some d) = search clients_end

  Ends-or_failure :
      (f : Failure) (o : Option (Unit {0})) → f ≢ out_of_fuel → Ends w (or_failure f o)
  unfolding or_failure
  Ends-or_failure f none ne = Ends-raise f ne
  Ends-or_failure f (some u) ne = search clients_end

  Ends-or_bad_code : (o : Option (Bool × ℕ)) → Ends w (or_bad_code o)
  unfolding or_bad_code
  Ends-or_bad_code none = search clients_end
  Ends-or_bad_code (some rc) = search clients_end

  Ends-report_grant : (rc : Bool × ℕ) → Ends w (report_grant rc)
  unfolding report_grant
  Ends-report_grant rc = search clients_end

  Ends-not_up_yet : (e : Failure) → e ≢ out_of_fuel → Ends w (not_up_yet e)
  unfolding not_up_yet
  Ends-not_up_yet (timeout_error r) ne = search clients_end
  Ends-not_up_yet _ ne = Ends-raise _ ne

  pub Ends-add_hint : (e : Failure) → e ≢ out_of_fuel → Ends w (add_hint e)
  unfolding add_hint
  Ends-add_hint e ne = search clients_end

ruleset parts_end = (
  clients_end, Ends-or_value_error, Ends-quarantine_until, Ends-drained, Ends-registered_pool,
  Ends-reenrolled, Ends-or_failure, Ends-or_bad_code, Ends-report_grant, Ends-not_up_yet,
  Ends-add_hint,
)

module _ {w : World} where
  pub Ends-require_credentials : Ends w require_credentials
  unfolding require_credentials
  Ends-require_credentials = search parts_end

  pub Ends-resolve_offline : (name : Text) → Ends w (resolve_offline name)
  unfolding resolve_offline
  Ends-resolve_offline name = search parts_end

module _ {w : World} (clock : IsClock w) (paced : IsPaced w.settings) where
  pub Ends-resolve : (name : Text) → Ends w (resolve name)
  unfolding resolve
  Ends-resolve name = search parts_end depth 12

  pub Ends-step_quarantine :
      (ctx : HostContext) (until : Option Text) (info : Text)
      → Ends w (step_quarantine ctx until info)
  unfolding step_quarantine
  Ends-step_quarantine ctx until info = search parts_end

  pub Ends-drain_round : (ctx : HostContext) (n : ℕ) → Ends w (drain_round ctx n)
  unfolding drain_round
  Ends-drain_round ctx n = search parts_end

  pub Ends-step_drain : (ctx : HostContext) → Ends w (step_drain ctx)
  unfolding step_drain
  Ends-step_drain ctx = Ends-asked _ _ (
      Ends-bind _ _
        (Ends-poll_for clock (drain_round ctx) _ _ 0 paced.drain (Ends-drain_round ctx)
          (λ n t. Keeps-drain_round (Time-IsStable clock t) ctx n))
        Ends-drained)

  pub Ends-registration_round :
      (ctx : HostContext) (pools : List Text) (u : Unit {0})
      → Ends w (registration_round ctx pools u)
  unfolding registration_round
  Ends-registration_round ctx pools u = search parts_end

  pub Ends-step_quarantine_on_register :
      (ctx : HostContext) (o : Option ℕ) → Ends w (step_quarantine_on_register ctx o)
  unfolding step_quarantine_on_register
  Ends-step_quarantine_on_register ctx o = Ends-asked _ _ (
      Ends-bind _ _ Ends-require_credentials λ u. Ends-bind _ _ (Ends-or_value_error _ _) λ pools.
        Ends-bind _ _
          (Ends-poll_for clock (registration_round ctx pools) _ _ tt paced.register
            (Ends-registration_round ctx pools)
            (λ u t. Keeps-registration_round (Time-IsStable clock t) ctx pools u))
          λ o.
            Ends-bind _ _ (Ends-registered_pool o)
              λ pool. Ends-bind _ _ (Ends-step_quarantine _ _ _) (λ u. Ends-pure _))

  pub Ends-step_unquarantine : (ctx : HostContext) → Ends w (step_unquarantine ctx)
  unfolding step_unquarantine
  Ends-step_unquarantine ctx = search parts_end

  Ends-is_enabled : (fqdn : Text) → Ends w (is_enabled fqdn)
  unfolding is_enabled
  Ends-is_enabled fqdn = search parts_end

  Ends-enabled_within : (n : ℕ) (fqdn : Text) → Ends w (enabled_within n fqdn)
  unfolding enabled_within
  Ends-enabled_within zero fqdn = search parts_end
  Ends-enabled_within (suc n) fqdn = Ends-bind _ _ (Ends-is_enabled fqdn) λ enabled.
      Ends-if enabled _ _ (Ends-pure true)
        (Ends-bind _ _ (Ends-sleep 5) (λ u. Ends-enabled_within n fqdn))

  pub Ends-step_mint : (ctx : HostContext) → Ends w (step_mint ctx)
  unfolding step_mint
  Ends-step_mint ctx = search (parts_end, Ends-is_enabled, Ends-enabled_within) depth 12

  pub Ends-step_escrow_bst : (ctx : HostContext) → Ends w (step_escrow_bst ctx)
  unfolding step_escrow_bst
  Ends-step_escrow_bst ctx = search parts_end depth 12

  Ends-get_ctx_device : (o : Option ℕ) → Ends w (get_ctx_device o)
  unfolding get_ctx_device
  Ends-get_ctx_device none = search parts_end
  Ends-get_ctx_device (some id) = search parts_end

  Ends-reenroll_baseline : (ctx : HostContext) (o : Option Text) → Ends w (reenroll_baseline ctx o)
  unfolding reenroll_baseline
  Ends-reenroll_baseline ctx none = search (parts_end, Ends-get_ctx_device)
  Ends-reenroll_baseline ctx (some at) = search parts_end

  pub Ends-reenroll_round :
      (ctx : HostContext) (o : Option Text) (n : ℕ) → Ends w (reenroll_round ctx o n)
  unfolding reenroll_round
  Ends-reenroll_round ctx o n = search (parts_end, Ends-get_ctx_device) depth 12

  pub Ends-step_wait_for_reenroll : (ctx : HostContext) → Ends w (step_wait_for_reenroll ctx)
  unfolding step_wait_for_reenroll
  Ends-step_wait_for_reenroll ctx = Ends-bind _ _ (Ends-ask _) λ s.
      Ends-bind _ _ (Ends-reenroll_baseline ctx _) λ baseline.
        Ends-bind _ _
          (Ends-poll_for clock (reenroll_round ctx baseline) _ 1 0 (omega arith)
            (Ends-reenroll_round ctx baseline)
            (λ n t. Keeps-reenroll_round (Time-IsStable clock t) ctx baseline n))
          Ends-reenrolled

  Ends-os_gate : (ctx : HostContext) (expected : Text) → Ends w (os_gate ctx expected)
  unfolding os_gate
  Ends-os_gate ctx expected = search parts_end

  Ends-sip_gate : (ctx : HostContext) (b : Bool) → Ends w (sip_gate ctx b)
  unfolding sip_gate
  Ends-sip_gate ctx b = search parts_end

  Ends-preflight_report : (ctx : HostContext) → Ends w (preflight_report ctx)
  unfolding preflight_report
  Ends-preflight_report ctx = search parts_end depth 12

  pub Ends-step_preflight :
      (ctx : HostContext) (expected : Text) (b : Bool) → Ends w (step_preflight ctx expected b)
  unfolding step_preflight
  Ends-step_preflight ctx expected b =
      search (parts_end, Ends-os_gate, Ends-sip_gate, Ends-preflight_report) depth 12

  pub Ends-file_round :
      (ctx : HostContext) (path : Text) (u : Unit {0}) → Ends w (file_round ctx path u)
  unfolding file_round
  Ends-file_round ctx path u = search parts_end

  pub Ends-step_wait_for_bootstrap_pkg :
      (ctx : HostContext) → Ends w (step_wait_for_bootstrap_pkg ctx)
  unfolding step_wait_for_bootstrap_pkg
  Ends-step_wait_for_bootstrap_pkg ctx = Ends-asked _ _ (
      Ends-bind _ _ (Ends-file_exists clock _ _) λ bootstrapped.
        Ends-if bootstrapped _ _ Ends-done (
          Ends-bind _ _
            (Ends-poll_for clock (file_round ctx bootstrap_pkg_payload) _ _ tt paced.payload
              (Ends-file_round ctx bootstrap_pkg_payload)
              (λ u t. Keeps-file_round (Time-IsStable clock t) ctx bootstrap_pkg_payload u))
            (λ o. Ends-or_failure _ o (λ e. cc))))

  pub Ends-step_wait_for_sentinel : (ctx : HostContext) → Ends w (step_wait_for_sentinel ctx)
  unfolding step_wait_for_sentinel
  Ends-step_wait_for_sentinel ctx = Ends-asked _ _ (
      Ends-bind _ _
        (Ends-poll_for clock (file_round ctx sentinel) _ _ tt paced.bootstrap
          (Ends-file_round ctx sentinel)
          (λ u t. Keeps-file_round (Time-IsStable clock t) ctx sentinel u))
        (λ o. Ends-or_failure _ o (λ e. cc)))

  Ends-run_screencapture_script : (ctx : HostContext) → Ends w (run_screencapture_script ctx)
  unfolding run_screencapture_script
  Ends-run_screencapture_script ctx = search parts_end depth 14

  Ends-grant_loop : (n : ℕ) (ctx : HostContext) → Ends w (grant_loop n ctx)
  unfolding grant_loop
  Ends-grant_loop zero ctx = search (parts_end, Ends-run_screencapture_script)
  Ends-grant_loop (suc n) ctx = Ends-bind _ _ (Ends-run_screencapture_script ctx) λ ran.
      Ends-if _ _ _ (Ends-bind _ _ (Ends-sleep 30) (λ u. Ends-grant_loop n ctx))
        (Ends-report_grant ran.0)

  pub Ends-step_screencapture_grant : (ctx : HostContext) → Ends w (step_screencapture_grant ctx)
  unfolding step_screencapture_grant
  Ends-step_screencapture_grant ctx = Ends-grant_loop 9 ctx

pub ruleset steps_end = (
  clients_end, Ends-require_credentials, Ends-resolve_offline, Ends-resolve, Ends-step_quarantine,
  Ends-step_drain, Ends-step_quarantine_on_register, Ends-step_unquarantine, Ends-step_mint,
  Ends-step_escrow_bst, Ends-step_wait_for_reenroll, Ends-step_preflight,
  Ends-step_wait_for_bootstrap_pkg, Ends-step_wait_for_sentinel, Ends-step_screencapture_grant,
)
