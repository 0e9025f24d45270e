-- ===== src/Runner/Setup.antt =====
-- `Config` from the environment, and `_ReloadingClient`.
use relops_bootstrap.Prelude.{
  ℕ, suc, max, Bool, true, false, ◌&&◌, ◌||◌, not, Option, none, some, List, [], ◌∷◌, Text, codes,
  text_eq, is_empty, lower, rstrip, ◌==◌, if◌then◌else◌,
}
use relops_bootstrap.Workflow.Capture.{to_int}
use relops_bootstrap.Runner.Calls.{Config}

-- `os.environ`
abbrev pub Environ : Type 0
Environ = Text → Option Text

unfoldable pub or_default : Text → Option Text → Text
or_default d none = d
or_default d (some s) = s

-- `os.environ.get(name, default)`
unfoldable pub get : Environ → Text → Text → Text
unfolding or_default
get env name d = or_default d (env name)

-- A configuration; a `ValueError` of `int`; or an exit of the program.
pub data Setup : Type 0 where
  configured : Config → Setup
  bad_number no_api no_auth : Setup

-- `max(1, n)`
unfoldable pub at_least_one : Bool × ℕ → ℕ
at_least_one (negative, n) = if negative then 1 else max 1 n

unfoldable pub is_yes : Text → Bool
is_yes s = text_eq s (codes "1") || text_eq s (codes "true") || text_eq s (codes "yes")

-- `self.token or (self.client_cert and self.client_key)`
unfoldable pub has_auth : Config → Bool
has_auth c = not (is_empty c.token) || (not (is_empty c.client_cert) && not (is_empty c.client_key))

unfoldable pub check_config : Config → Setup
unfolding has_auth
check_config c = if is_empty c.api then no_api else if has_auth c then configured c else no_auth

unfoldable pub with_numbers : Environ → Text → Option (Bool × ℕ) → Option (Bool × ℕ) → Setup
unfolding get at_least_one is_yes check_config
with_numbers env hostname (some poll) (some most) = check_config (record {
  api = rstrip b'/' (get env (codes "HANGAR_API_URL") []);
  token = get env (codes "REPROVISION_RUNNER_TOKEN") [];
  client_cert = get env (codes "RUNNER_CLIENT_CERT") [];
  client_key = get env (codes "RUNNER_CLIENT_KEY") [];
  poll = poll;
  max_concurrent = at_least_one most;
  unquarantine = is_yes (lower (get env (codes "RUNNER_UNQUARANTINE") (codes "true")));
  runner_id = get env (codes "RUNNER_ID") hostname;
})
with_numbers env hostname _ _ = bad_number

-- `Config()`
unfoldable pub read_config : Environ → Text → Setup
unfolding with_numbers
read_config env hostname =
    with_numbers env hostname (to_int (get env (codes "RUNNER_POLL_SECONDS") (codes "10")))
      (to_int (get env (codes "RUNNER_MAX_CONCURRENT") (codes "3")))

unfoldable pub headers : Config → List (Text × Text)
headers c =
    (codes "X-Reprovision-Runner-Id", c.runner_id)
    ∷ (if is_empty c.token then [] else (codes "X-Reprovision-Runner-Token", c.token) ∷ [])

-- Whether a client certificate is configured, as `client_kwargs` and `_files_stamp` ask.
unfoldable pub has_cert : Config → Bool
has_cert c = not (is_empty c.client_cert) && not (is_empty c.client_key)

-- The modification times of the two files, in nanoseconds.
abbrev pub Stamp : Type 0
Stamp = Option (ℕ × ℕ)

unfoldable pub stamp_eq : Stamp → Stamp → Bool
stamp_eq none none = true
stamp_eq (some (a, b)) (some (c, d)) = a == c && b == d
stamp_eq _ _ = false

-- `_ReloadingClient`: how many clients it has built, whether it holds the last of them, and the stamp.
pub record Reloading : Type 0 where
  pub built : ℕ
  pub has_client : Bool
  pub stamp : Stamp

-- `stat` is what `os.stat` gives for the two files, `none` for an `OSError`.
unfoldable pub read_stamp : Stamp → Stamp → Stamp
read_stamp old none = old
read_stamp old (some s) = some s

unfoldable pub files_stamp : Config → Stamp → Reloading → Stamp
unfolding has_cert read_stamp
files_stamp c stat r = if has_cert c then read_stamp r.stamp stat else none

-- `_current`
unfoldable pub current : Config → Stamp → Reloading → Reloading
unfolding files_stamp stamp_eq
current c stat r =
    let stamp = files_stamp c stat r in
    if not r.has_client || not (stamp_eq stamp r.stamp)
    then record { built = suc r.built; has_client = true; stamp = stamp }
    else r

-- `close`
unfoldable pub close : Reloading → Reloading
close r = record { built = r.built; has_client = false; stamp = r.stamp }
