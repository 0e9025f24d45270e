-- ===== src/Clients/Ssh.antt =====
-- clients/ssh.py: commands on a host, with the waits and logins around them. The argument list of ssh
-- and the handling of key files are not modelled.
use relops_bootstrap.Prelude.{
  ℕ, Bool, true, false, ◌&&◌, not, Option, none, some, Text, codes, text_eq, strip, ◌==◌,
  if◌then◌else◌,
}
use relops_bootstrap.Effects.{
  Exec, pure, raise, ask, of_secret, done, ◌>>=◌, connect, expect_login, ssh_call, Round, found,
  again, poll_for, SshReply, exited, timed_out, no_identity, Command, write_file, test_file,
  secure_token, serial_number, reprovision_error, timeout_error, runtime_error, ssh_timed_out,
  ssh_unreachable, remote_failed, secret_unresolved, login_denied, login_timed_out, no_sshd,
}

pub record Completed : Type 0 where
  pub returncode : ℕ
  pub stdout : Text
  pub stderr : Text

unfoldable pub check_reply : SshReply → Bool → Exec Completed
check_reply timed_out check = raise (reprovision_error ssh_timed_out)
check_reply no_identity check = raise (reprovision_error secret_unresolved)
check_reply (exited code out error) check =
    if check && not (code == 0)
    then (if code == 255
        then raise (reprovision_error ssh_unreachable)
        else raise (reprovision_error remote_failed))
    else pure (record { returncode = code; stdout = out; stderr = error })

unfoldable pub run : Text → Command → Bool → Exec Completed
run host command check = do reply ← ssh_call host command; check_reply reply check

unfoldable pub file_exists : Text → Text → Exec Bool
file_exists host path = do
  cp ← run host (test_file path) false
  pure (text_eq (strip cp.stdout) (codes "yes"))

unfoldable pub write_file_as_root : Text → Text → Text → Exec (Unit {0})
write_file_as_root host path mode = do cp ← run host (write_file path mode) true; done

unfoldable pub secure_token_status : Text → Exec Text
secure_token_status host = do
  user ← ask (λ w. w.settings.ssh_admin_user)
  cp ← run host (secure_token user) false
  pure (strip cp.stdout)

unfoldable pub platform_serial : Text → Exec Text
platform_serial host = do cp ← run host serial_number false; pure (strip cp.stdout)

unfoldable pub sshd_round : Text → Unit {0} → Exec (Round (Unit {0}) (Unit {0}))
sshd_round host u = do up ← connect host; if up then pure (found tt) else pure (again tt)

unfoldable pub reached : Option (Unit {0}) → Exec (Unit {0})
reached (some u) = done
reached none = raise (timeout_error no_sshd)

-- `poll` is 15 seconds at every call.
unfoldable pub wait_for_sshd : Text → ℕ → Exec (Unit {0})
wait_for_sshd host timeout = do o ← poll_for timeout 15 (sshd_round host) tt; reached o

-- `expect`'s exit code; a `subprocess.TimeoutExpired` is no `ReprovisionError`.
unfoldable pub login_result : Option ℕ → Exec (Unit {0})
login_result none = raise (runtime_error login_timed_out)
login_result (some code) =
    if code == 2
    then raise (reprovision_error login_denied)
    else if code == 3
    then raise (reprovision_error login_timed_out)
    else done

unfoldable pub password_login : Text → Exec (Unit {0})
unfolding login_result
password_login host = do
  secret ← ask (λ w. w.admin_password)
  password ← of_secret secret
  code ← expect_login host
  login_result code
