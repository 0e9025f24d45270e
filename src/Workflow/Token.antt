-- ===== src/Workflow/Token.antt =====
-- `step_mint` and `step_escrow_bst`: the SecureToken and the Bootstrap Token.
use relops_bootstrap.Prelude.{ℕ, zero, suc, Bool, true, false, Text, codes, contains, if◌then◌else◌}
use relops_bootstrap.Effects.{
  Exec, pure, raise, ask, of_secret, catch, done, ◌>>=◌, ◌>>◌, sleep, forget_host_key,
  is_reprovision_error, bst_install, bst_status, reprovision_error, token_not_enabled,
  escrow_not_confirmed, escrow_failed, Failure,
}
use relops_bootstrap.Clients.Ssh.{run, wait_for_sshd, secure_token_status, password_login}
use relops_bootstrap.Workflow.Context.{HostContext}

abbrev pub escrowed_yes : Text
escrowed_yes = codes "escrowed to server: YES"

unfoldable pub is_enabled : Text → Exec Bool
is_enabled fqdn = do status ← secure_token_status fqdn; pure (contains status (codes "ENABLED"))

-- The checks after the login, so many and five seconds apart.
unfoldable pub enabled_within : ℕ → Text → Exec Bool
enabled_within zero fqdn = pure false
enabled_within (suc n) fqdn = do
  enabled ← is_enabled fqdn
  if enabled then pure true else (do sleep 5; enabled_within n fqdn)

unfoldable pub step_mint : HostContext → Exec (Unit {0})
step_mint ctx = do
  forget_host_key ctx.fqdn
  wait_for_sshd ctx.fqdn 900
  already ← is_enabled ctx.fqdn
  if already then done else (do
    password_login ctx.fqdn
    enabled ← enabled_within 6 ctx.fqdn
    if enabled then done else raise (reprovision_error token_not_enabled))

-- `except ReprovisionError`, with a hint added to the message.
unfoldable pub add_hint : Failure → Exec (Unit {0})
add_hint e = if is_reprovision_error e then raise (reprovision_error escrow_failed) else raise e

unfoldable pub step_escrow_bst : HostContext → Exec (Unit {0})
step_escrow_bst ctx = do
  s ← ask (λ w. w.settings)
  secret ← ask (λ w. w.admin_password)
  password ← of_secret secret
  catch (do cp ← run ctx.fqdn (bst_install s.ssh_admin_user password) true; done) add_hint
  cp ← run ctx.fqdn bst_status true
  if contains cp.stdout escrowed_yes then done else raise (reprovision_error escrow_not_confirmed)
