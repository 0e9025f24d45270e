-- ===== src/Health/Collect.antt =====
-- `_ssh`, `_guest` and `collect_host`.
use relops_bootstrap.Prelude.{
  ℕ, ◌-◌, Bool, true, false, Option, none, some, List, [], ◌∷◌, ◌++◌, Text, codes, is_empty,
  is_space, strip, take, decimal, leb, ◌==◌, if◌then◌else◌,
}
use relops_bootstrap.Workflow.Capture.{to_int}
use relops_bootstrap.Runner.Execute.{join, code_text}
use relops_bootstrap.Traces.Actions.{Act, pure, raise, call, ◌>>=◌}
use relops_bootstrap.Health.Parsers.{is_digits, number, Facts, lookup, kv}

-- The two scripts that are run: the probe of the host, and that of a guest through it.
pub data Probe : Type 0 where
  host_probe : Probe
  guest_probe : Text → Probe

-- ssh ended, with its output, its complaints and its exit code (negative or not); it timed out; it could
-- not be run; its output was no UTF-8; or its key could not be resolved, so that it was not run.
pub data SshEnd : Type 0 where
  ended : Text → Text → Bool → ℕ → SshEnd
  timed_out : SshEnd
  not_run : Text → SshEnd
  undecodable : SshEnd
  no_key : SshEnd

-- A worker as Taskcluster lists it: the id of its latest task, and `quarantineUntil`.
pub record WorkerInfo : Type 0 where
  pub latest_task : Option Text
  pub quarantine_until : Option Text

pub data Event : Type 0 where
  probed : Text → Probe → SshEnd → Event
  paused : ℕ → Event
  got_runs : Text → Option (List (Option Text)) → Event
  read_clock : ℕ → Event

-- `strptime` with the two formats, and the workers of the pool, are parameters.
pub record Site : Type 0 where
  pub run_probe : List Event → Text → Probe → SshEnd
  -- the states of a task's runs, each with or without one, or a failure of any kind
  pub get_runs : List Event → Text → Option (List (Option Text))
  -- `datetime.now(timezone.utc).timestamp()` in whole seconds
  pub utc_now : List Event → ℕ
  pub openssl_date : Text → Option Text
  pub workers : Text → Option WorkerInfo

-- A number that is negative or not, and its absolute value.
abbrev pub Signed : Type 0
Signed = Bool × ℕ

-- What is known of the guest.
pub record Guest : Type 0 where
  pub reachable : Option Bool
  pub uptime_s : Option Signed
  pub disk_free_gib : Option ℕ
  pub configured_worker_id : Option Text
  pub clock_skew_s : Option Signed
  pub worker_exit_69_age_s : Option Signed

pub record Found : Type 0 where
  pub vm_name : Text
  pub worker_id : Option Text
  pub vm_state : Option Text
  pub tart_run_uptime_s : Option ℕ
  pub vault_present : Bool
  pub registered : Bool
  pub quarantined : Option Bool
  pub last_task_state : Option Text
  pub inject_vault : Bool
  pub cert_expiry : Option Text
  pub cert_not_before : Option Text
  pub cert_owner_ok : Option Bool
  pub checkout_sha : Option Text
  pub refspec_pinned : Bool
  pub probe_key_present : Option Bool
  pub guest : Guest

-- One entry of the report: the agent's own error, no VM, or what was found.
pub data Slot : Type 0 where
  agent_error : Text → ℕ → Text → Slot
  vm_missing : Text → ℕ → Slot
  vm_found : Text → ℕ → Found → Slot

-- A `ValueError` of `int`, a `UnicodeDecodeError` of `subprocess.run`, and the `SecretResolutionError`
-- of `admin_ssh_opts`.
pub data Failure : Type 0 where
  value_error decode_error secret_error : Failure

abbrev pub Work : Type 0 → Type 0
Work A = Act Site Event Failure A

unfoldable pub run_probe : Text → Probe → Work SshEnd
unfolding call
run_probe host p = call (λ s l. s.run_probe l host p) (probed host p)

-- `s.split()`
unfoldable pub words : Text → List Text
unfolding is_space
words [] = []
words (c ∷ []) = if is_space c then [] else (c ∷ []) ∷ []
words (c ∷ d ∷ s) =
    let rest = words (d ∷ s) in
    if is_space c then rest else if is_space d then (c ∷ []) ∷ rest else begin c rest
  where
    begin : ℕ → List Text → List Text
    begin c [] = (c ∷ []) ∷ []
    begin c (w ∷ ws) = (c ∷ w) ∷ ws

-- ssh's own complaint, or that there was none.
unfoldable pub complaint : Text → Bool → ℕ → Text
unfolding words join code_text
complaint error negative n =
    let said = take 200 (join (words error)) in
    if is_empty said then codes "no output, ssh exit " ++ code_text negative n else said

-- `_ssh`: the output, and the reason where there is none.
unfoldable pub ssh_result : ℕ → SshEnd → Work (Text × Text)
unfolding complaint
ssh_result timeout timed_out =
    pure ([], codes "ssh timed out after " ++ decimal timeout ++ codes "s")
ssh_result timeout (not_run s) = pure ([], codes "could not run ssh: " ++ s)
ssh_result timeout undecodable = raise decode_error
ssh_result timeout no_key = raise secret_error
ssh_result timeout (ended out error negative n) =
    pure (if is_empty (strip out) then ([], complaint error negative n) else (out, []))

unfoldable pub ssh : Text → Probe → ℕ → Work (Text × Text)
unfolding run_probe ssh_result
ssh host p timeout = do end ← run_probe host p; ssh_result timeout end

-- `_guest`
unfoldable pub read_guest : Text → Text → Work Facts
unfolding ssh kv
read_guest host ip = do (out, why) ← ssh host (guest_probe ip) 150; pure (kv out)

unfoldable pub pause : ℕ → Work (Unit {0})
unfolding call
pause n = call (λ s l. tt) (λ _. paused n)

unfoldable pub or_empty : Option Text → Text
or_empty none = []
or_empty (some s) = s

-- `h.get(key, "")`
unfoldable pub get : Text → Facts → Text
unfolding lookup or_empty
get key facts = or_empty (lookup key facts)

-- `s.lstrip("-")`
unfoldable pub strip_dashes : Text → Text
strip_dashes [] = []
strip_dashes (c ∷ s) = let rest = strip_dashes s in if c == b'-' then rest else c ∷ s

unfoldable pub or_value_error : Option Signed → Work (Option Signed)
or_value_error none = raise value_error
or_value_error (some n) = pure (some n)

-- `if value.lstrip("-").isdigit(): int(value)`
unfoldable pub signed_fact : Text → Work (Option Signed)
unfolding is_digits strip_dashes to_int or_value_error
signed_fact value =
    if is_digits (strip_dashes value) then or_value_error (to_int value) else pure none

unfoldable pub digits_fact : Text → Option ℕ
unfolding is_digits number
digits_fact value = if is_digits value then some (number value) else none

-- `a - b`
unfoldable pub difference : ℕ → ℕ → Signed
difference a b = if leb b a then (false, a - b) else (true, b - a)

unfoldable pub skew : Option ℕ → Work (Option Signed)
unfolding call difference
skew none = pure none
skew (some epoch) = do
  now ← call (λ s l. s.utc_now l) read_clock
  pure (some (difference epoch now))

-- `if value: …`
unfoldable pub filled : Text → Option Text
filled s = if is_empty s then none else some s

unfoldable pub no_facts : Facts → Bool
no_facts [] = true
no_facts (f ∷ fs) = false

-- `guest_reachable`: true with an uptime, false with no fact at all, otherwise unset.
unfoldable pub reached : Option Signed → Facts → Option Bool
unfolding no_facts
reached none g = if no_facts g then some false else none
reached (some n) g = some true

unfoldable pub probe_guest : Text → Text → Work Guest
unfolding read_guest get signed_fact digits_fact skew filled reached
probe_guest host ip = do
  g ← read_guest host ip
  up ← signed_fact (get (codes "guest_up_s") g)
  clock ← skew (digits_fact (get (codes "guest_epoch") g))
  age ← signed_fact (get (codes "exit69_age_s") g)
  pure (record {
    reachable = reached up g;
    uptime_s = up;
    disk_free_gib = digits_fact (get (codes "guest_disk_gib") g);
    configured_worker_id = filled (get (codes "cfg_worker") g);
    clock_skew_s = clock;
    worker_exit_69_age_s = age;
  })

-- A guest that was not asked.
unfoldable pub unasked : Option Bool → Guest
unasked reachable = record {
  reachable = reachable;
  uptime_s = none;
  disk_free_gib = none;
  configured_worker_id = none;
  clock_skew_s = none;
  worker_exit_69_age_s = none;
}
