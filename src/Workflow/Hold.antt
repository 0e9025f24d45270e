-- ===== src/Workflow/Hold.antt =====
-- The steps that keep a worker from taking tasks: quarantine, drain, the watch for a registration.
use relops_bootstrap.Prelude.{
  ◌+◌, ◌*◌, ℕ, ◌+◌, ◌&&◌, not, Option, none, some, List, Text, codes, is_empty, leb, ◌==◌,
  if◌then◌else◌,
}
use relops_bootstrap.Effects.{
  Exec, pure, raise, ask, of_secret, done, ◌>>=◌, ◌>>◌, Round, found, again, poll_for,
  timeout_error, reprovision_error, drain_exceeded, no_tc_credentials, no_pool, never_registered,
}
use relops_bootstrap.Clients.Taskcluster
use relops_bootstrap.Clients.Taskcluster.{is_currently_busy, find_registered_pool}
use relops_bootstrap.Workflow.Context.{HostContext, candidate_pools, or_value_error}

-- 365 days from now; reading the calendar clock is no call that a step can wait on.
unfoldable pub in_a_year : Exec Text
unfolding pure
in_a_year w h = pure (w.strftime (w.utc_now h + 365 * 86400)) w h

-- `until` is `none` or empty for the default of a year.
unfoldable pub quarantine_until : Option Text → Exec Text
unfolding in_a_year
quarantine_until none = in_a_year
quarantine_until (some until) = if is_empty until then in_a_year else pure until

unfoldable pub step_quarantine : HostContext → Option Text → Text → Exec (Unit {0})
step_quarantine ctx until info = do
  date ← quarantine_until until
  Taskcluster.quarantine ctx.worker_pool_id ctx.worker_group ctx.hostname date info

-- One poll of the drain, with the idle polls in a row so far.
unfoldable pub drain_round : HostContext → ℕ → Exec (Round (Unit {0}) ℕ)
drain_round ctx consecutive_idle = do
  busy ← is_currently_busy ctx.worker_pool_id ctx.worker_group ctx.hostname
  if busy
      then pure (again 0)
      else if leb 2 (consecutive_idle + 1)
      then pure (found tt)
      else pure (again (consecutive_idle + 1))

unfoldable pub drained : Option (Unit {0}) → Exec (Unit {0})
drained (some u) = done
drained none = raise (timeout_error drain_exceeded)

unfoldable pub step_drain : HostContext → Exec (Unit {0})
step_drain ctx = do
  s ← ask (λ w. w.settings)
  o ← poll_for s.drain_max_wait_seconds s.drain_poll_seconds (drain_round ctx) 0
  drained o

unfoldable pub found_pool : Option Text → Round Text (Unit {0})
found_pool none = again tt
found_pool (some pool) = found pool

unfoldable pub require_credentials : Exec (Unit {0})
require_credentials = do
  secret ← ask (λ w. w.tc_credentials)
  credentials ← of_secret secret
  if not (is_empty credentials.0) && not (is_empty credentials.1)
      then done
      else raise (reprovision_error no_tc_credentials)

unfoldable pub registered_pool : Option Text → Exec Text
registered_pool none = raise (reprovision_error never_registered)
registered_pool (some pool) = pure pool

-- `max_wait_seconds or …`
unfoldable pub watch_budget : Option ℕ → ℕ → ℕ
watch_budget none default = default
watch_budget (some n) default = if n == 0 then default else n

unfoldable pub registration_round :
    HostContext → List Text → Unit {0} → Exec (Round Text (Unit {0}))
unfolding found_pool
registration_round ctx pools u = do
  o ← find_registered_pool pools ctx.worker_group ctx.hostname
  pure (found_pool o)

unfoldable pub step_quarantine_on_register : HostContext → Option ℕ → Exec HostContext
step_quarantine_on_register ctx max_wait_seconds = do
  s ← ask (λ w. w.settings)
  require_credentials
  pools ← or_value_error no_pool (candidate_pools ctx.role)
  let budget = watch_budget max_wait_seconds s.quarantine_on_register_max_wait_seconds
  o ← poll_for budget s.quarantine_on_register_poll_seconds (registration_round ctx pools) tt
  pool ← registered_pool o
  let held = record ctx { worker_pool_id = pool }
  step_quarantine held none (codes "fresh host — quarantined on registration pending validation")
  pure held

unfoldable pub step_unquarantine : HostContext → Exec (Unit {0})
step_unquarantine ctx = Taskcluster.unquarantine ctx.worker_pool_id ctx.worker_group ctx.hostname
