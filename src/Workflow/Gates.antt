-- ===== src/Workflow/Gates.antt =====
-- The gates and waits of a fresh host: `step_preflight`, `step_os_update`,
-- `step_wait_for_bootstrap_pkg`, `step_wait_for_sentinel`.
use relops_bootstrap.Prelude.{
  Bool, false, ◌&&◌, ◌||◌, not, Option, none, some, ◌++◌, Text, codes, text_eq, contains,
  starts_with, strip, lower, is_empty, ◌==◌, if◌then◌else◌,
}
use relops_bootstrap.Effects.{
  Exec, pure, raise, ask, of_secret, catch, done, ◌>>=◌, ◌>>◌, sleep, Round, found, again, poll_for,
  Failure, os_version, sip_status, bst_status, run_detached, tail_log, not_ready, timeout_error,
  no_sshd, no_os_version, wrong_os, sip_enabled, no_pkg, no_sentinel, upgrade_refused,
}
use relops_bootstrap.Clients.Ssh.{
  run, file_exists, wait_for_sshd, secure_token_status, write_file_as_root,
}
use relops_bootstrap.Workflow.Context.{HostContext}

abbrev pub sentinel : Text
sentinel = codes "/var/log/m4-bootstrap-complete"

abbrev pub bootstrap_pkg_payload : Text
bootstrap_pkg_payload = codes "/usr/local/sbin/m4-bootstrap.sh"

abbrev pub os_upgrade_remote : Text
os_upgrade_remote = codes "/var/root/macos-upgrade.sh"

abbrev pub os_upgrade_log : Text
os_upgrade_log = codes "/var/log/macos-upgrade.log"

-- `_os_version_matches`
unfoldable pub os_version_matches : Text → Text → Bool
os_version_matches actual expected =
    text_eq actual expected || starts_with actual (expected ++ codes ".")

-- `expected_os or s.provision_expected_os`
unfoldable pub or_expected : Text → Text → Text
or_expected expected default = if is_empty expected then default else expected

-- `except TimeoutError`
unfoldable pub not_up_yet : Failure → Exec (Unit {0})
not_up_yet (timeout_error r) = raise (not_ready no_sshd)
not_up_yet e = raise e

unfoldable pub os_gate : HostContext → Text → Exec (Unit {0})
os_gate ctx expected = do
  cp ← run ctx.fqdn os_version false
  let actual = strip cp.stdout
  if not (cp.returncode == 0) || is_empty actual
      then raise (not_ready no_os_version)
      else if os_version_matches actual expected
      then done
      else raise (not_ready wrong_os)

unfoldable pub sip_gate : HostContext → Bool → Exec (Unit {0})
sip_gate ctx require_sip_disabled = do
  cp ← run ctx.fqdn sip_status false
  if require_sip_disabled && not (contains (lower (strip cp.stdout)) (codes "disabled"))
      then raise (not_ready sip_enabled)
      else done

-- What preflight reports without gating on it.
unfoldable pub preflight_report : HostContext → Exec (Unit {0})
preflight_report ctx = do
  token ← secure_token_status ctx.fqdn
  cp ← run ctx.fqdn bst_status false
  landed ← file_exists ctx.fqdn bootstrap_pkg_payload
  bootstrapped ← file_exists ctx.fqdn sentinel
  done

unfoldable pub step_preflight : HostContext → Text → Bool → Exec (Unit {0})
step_preflight ctx expected_os require_sip_disabled = do
  s ← ask (λ w. w.settings)
  catch (wait_for_sshd ctx.fqdn s.preflight_sshd_wait_seconds) not_up_yet
  os_gate ctx (or_expected expected_os s.provision_expected_os)
  sip_gate ctx require_sip_disabled
  preflight_report ctx

-- The script carries the admin password, so the vault is read before it is written.
unfoldable pub launch_upgrade : HostContext → Exec (Unit {0})
launch_upgrade ctx = do
  secret ← ask (λ w. w.admin_password)
  password ← of_secret secret
  write_file_as_root ctx.fqdn os_upgrade_remote (codes "0700")
  launched ← run ctx.fqdn (run_detached os_upgrade_remote) false
  sleep 5
  cp ← run ctx.fqdn (tail_log os_upgrade_log) false
  if contains (strip cp.stdout) (codes "[ERROR]") then raise (not_ready upgrade_refused) else done

unfoldable pub step_os_update : HostContext → Text → Exec (Unit {0})
step_os_update ctx expected_os = do
  s ← ask (λ w. w.settings)
  wait_for_sshd ctx.fqdn s.preflight_sshd_wait_seconds
  cp ← run ctx.fqdn os_version false
  let current = strip cp.stdout
  if not (is_empty current)
        && os_version_matches current (or_expected expected_os s.provision_expected_os)
      then done
      else launch_upgrade ctx

unfoldable pub file_round : HostContext → Text → Unit {0} → Exec (Round (Unit {0}) (Unit {0}))
file_round ctx path u = do
  there ← file_exists ctx.fqdn path
  if there then pure (found tt) else pure (again tt)

unfoldable pub or_failure : Failure → Option (Unit {0}) → Exec (Unit {0})
or_failure f (some u) = done
or_failure f none = raise f

unfoldable pub step_wait_for_bootstrap_pkg : HostContext → Exec (Unit {0})
step_wait_for_bootstrap_pkg ctx = do
  s ← ask (λ w. w.settings)
  bootstrapped ← file_exists ctx.fqdn sentinel
  if bootstrapped then done else (do
    o ←
        poll_for s.bootstrap_pkg_max_wait_seconds s.bootstrap_pkg_poll_seconds
          (file_round ctx bootstrap_pkg_payload) tt
    or_failure (not_ready no_pkg) o)

unfoldable pub step_wait_for_sentinel : HostContext → Exec (Unit {0})
step_wait_for_sentinel ctx = do
  s ← ask (λ w. w.settings)
  o ← poll_for s.bootstrap_max_wait_seconds s.bootstrap_poll_seconds (file_round ctx sentinel) tt
  or_failure (timeout_error no_sentinel) o
