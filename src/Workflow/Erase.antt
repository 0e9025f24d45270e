-- ===== src/Workflow/Erase.antt =====
-- `step_wipe` and `step_wait_for_reenroll`.
use relops_bootstrap.Prelude.{
  ℕ, ◌+◌, Bool, true, false, ◌&&◌, not, Option, none, some, Text, codes, text_eq, contains, leb,
  ◌==◌, if◌then◌else◌,
}
use relops_bootstrap.Effects.{
  Exec, pure, raise, ask, catch, done, ◌>>=◌, ◌>>◌, monotonic, forget_host_key,
  is_reprovision_error, bst_status, pgrep_worker, Round, found, again, poll_for, Failure,
  reprovision_error, timeout_error, http_status, bst_unverified, escrow_failed, idle_unverified,
  still_busy, unknown_pool_worker, not_in_simplemdm, no_reenroll, no_pool, Device,
}
use relops_bootstrap.Clients.Taskcluster.{is_currently_busy}
use relops_bootstrap.Clients.SimpleMdm
use relops_bootstrap.Clients.SimpleMdm.{get_device}
use relops_bootstrap.Clients.Ssh.{run}
use relops_bootstrap.Workflow.Context.{HostContext, candidate_pools, or_value_error}
use relops_bootstrap.Workflow.Token.{step_escrow_bst, escrowed_yes}

unfoldable pub refuse_unescrowed : Failure → Exec (Unit {0})
refuse_unescrowed e =
    if is_reprovision_error e then raise (reprovision_error escrow_failed) else raise e

-- The Bootstrap Token is escrowed, or is escrowed now.
unfoldable pub escrow_gate : HostContext → Exec (Unit {0})
escrow_gate ctx = do
  bst ← run ctx.fqdn bst_status false
  if not (bst.returncode == 0)
      then raise (reprovision_error bst_unverified)
      else if contains bst.stdout escrowed_yes
      then done
      else catch (step_escrow_bst ctx) refuse_unescrowed

-- Any exception of the check refuses the wipe.
unfoldable pub confirm_idle : HostContext → Exec Bool
confirm_idle ctx =
    catch (is_currently_busy ctx.worker_pool_id ctx.worker_group ctx.hostname)
      (λ e. raise (reprovision_error idle_unverified))

unfoldable pub idle_gate : HostContext → Exec (Unit {0})
idle_gate ctx = do
  busy ← confirm_idle ctx
  if busy then raise (reprovision_error still_busy) else done

-- On an unregistered host no generic-worker runs: pgrep exits with 1.
unfoldable pub worker_gate : HostContext → Exec (Unit {0})
worker_gate ctx = if ctx.registered then done else (do
  cp ← run ctx.fqdn pgrep_worker false
  if not (cp.returncode == 1)
      then (do
        pools ← or_value_error no_pool (candidate_pools ctx.role)
        raise (reprovision_error unknown_pool_worker))
      else done)

-- The gates and the erase, for a device that SimpleMDM knows.
unfoldable pub erase : HostContext → ℕ → Exec HostContext
erase ctx device = do
  forget_host_key ctx.fqdn
  escrow_gate ctx
  idle_gate ctx
  worker_gate ctx
  d ← get_device device
  SimpleMdm.wipe device
  pure (record ctx { pre_wipe_enrolled_at = d.enrolled_at })

-- `not ctx.simplemdm_device_id` holds of `None` and of 0.
unfoldable pub known_device : Option ℕ → Option ℕ
known_device none = none
known_device (some id) = if id == 0 then none else some id

unfoldable pub erase_known : HostContext → Option ℕ → Exec HostContext
unfolding erase
erase_known ctx none = raise (reprovision_error not_in_simplemdm)
erase_known ctx (some device) = erase ctx device

unfoldable pub step_wipe : HostContext → Exec HostContext
unfolding erase_known known_device
step_wipe ctx = erase_known ctx (known_device ctx.simplemdm_device_id)

-- A context without a device asks for `/devices/None`, which SimpleMDM does not have.
unfoldable pub get_ctx_device : Option ℕ → Exec Device
get_ctx_device none = raise (http_status 404)
get_ctx_device (some id) = get_device id

unfoldable pub reenroll_baseline : HostContext → Option Text → Exec (Option Text)
reenroll_baseline ctx (some at) = pure (some at)
reenroll_baseline ctx none = do d ← get_ctx_device ctx.simplemdm_device_id; pure d.enrolled_at

unfoldable pub option_text_eq : Option Text → Option Text → Bool
option_text_eq none none = true
option_text_eq none (some b) = false
option_text_eq (some a) none = false
option_text_eq (some a) (some b) = text_eq a b

-- `a.get("status") == "enrolled" and a.get("enrolled_at") != baseline`
unfoldable pub is_fresh : Device → Option Text → Bool
unfolding option_text_eq
is_fresh d baseline =
    option_text_eq d.status (some (codes "enrolled")) && not (option_text_eq d.enrolled_at baseline)

-- A round of a second; the device is asked for when `next_poll` has come. The clock read that the
-- progress display starts from is left out.
unfoldable pub reenroll_round : HostContext → Option Text → ℕ → Exec (Round Device ℕ)
reenroll_round ctx baseline next_poll = do
  s ← ask (λ w. w.settings)
  now ← monotonic
  if leb next_poll now
      then (do
        d ← get_ctx_device ctx.simplemdm_device_id
        if is_fresh d baseline then pure (found d) else pure (again (now + s.wipe_poll_seconds)))
      else pure (again next_poll)

unfoldable pub reenrolled : Option Device → Exec (Unit {0})
reenrolled (some d) = done
reenrolled none = raise (timeout_error no_reenroll)

unfoldable pub step_wait_for_reenroll : HostContext → Exec (Unit {0})
step_wait_for_reenroll ctx = do
  s ← ask (λ w. w.settings)
  baseline ← reenroll_baseline ctx ctx.pre_wipe_enrolled_at
  o ← poll_for s.wipe_max_wait_seconds 1 (reenroll_round ctx baseline) 0
  reenrolled o
