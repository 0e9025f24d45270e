-- ===== src/Batch/Commands.antt =====
-- `_child_cmd`, `_last_meaningful_line` and the budgets of `run_batch`.
use relops_bootstrap.Prelude.{
  ℕ, ◌+◌, Bool, false, ◌||◌, not, Option, none, some, List, [], ◌∷◌, ◌++◌, reverse, Text, codes,
  text_eq, is_empty, strip, ◌==◌, if◌then◌else◌,
}
use relops_bootstrap.Settings.{Settings}
use relops_bootstrap.Workflow.Capture.{split_lines}

-- `ACTIONS`
pub data Action : Type 0 where
  preflight mint os_update add_to_group quarantine_on_register validate provision : Action

-- `action in ACTIONS`
unfoldable pub action_of : Text → Option Action
action_of action =
    if text_eq action (codes "preflight")
    then some preflight
    else if text_eq action (codes "mint")
    then some mint
    else if text_eq action (codes "os-update")
    then some os_update
    else if text_eq action (codes "add-to-group")
    then some add_to_group
    else if text_eq action (codes "quarantine-on-register")
    then some quarantine_on_register
    else if text_eq action (codes "validate")
    then some validate
    else if text_eq action (codes "provision")
    then some provision
    else none

-- A word of a command line; `number n` is `str(n)`.
pub data Word : Type 0 where
  word : Text → Word
  number : ℕ → Word

-- What a batch is asked for. `exe` is what `_reprovision_exe` finds.
pub record Options : Type 0 where
  pub exe : Text
  pub expected_os : Text
  pub allow_sip_enabled : Bool
  pub wait : Bool
  pub quarantine_on_register : Bool
  pub watch_max_wait_seconds : ℕ
  pub per_host_timeout : ℕ
  pub concurrency : ℕ

unfoldable pub flag_if : Bool → List Word → List Word
flag_if b words = if b then words else []

unfoldable pub os_flag : Text → List Word
unfolding flag_if
os_flag expected_os =
    flag_if (not (is_empty expected_os)) (word (codes "--expected-os") ∷ word expected_os ∷ [])

unfoldable pub gate_flags : Options → List Word
unfolding flag_if os_flag
gate_flags o =
    os_flag o.expected_os ++ flag_if o.allow_sip_enabled (word (codes "--allow-sip-enabled") ∷ [])

unfoldable pub watch_flags : ℕ → List Word
unfolding flag_if
watch_flags n = flag_if (not (n == 0)) (word (codes "--max-wait-seconds") ∷ number n ∷ [])

unfoldable pub hold_flag : Bool → List Word
unfolding flag_if
hold_flag b = flag_if b (word (codes "--quarantine-on-register") ∷ [])

unfoldable pub child_cmd : Options → Action → Text → List Word
unfolding flag_if os_flag gate_flags watch_flags hold_flag
child_cmd o preflight host = word o.exe ∷ word (codes "preflight") ∷ word host ∷ gate_flags o
child_cmd o os_update host =
    word o.exe ∷ word (codes "os-update") ∷ word host ∷ os_flag o.expected_os
child_cmd o mint host = word o.exe ∷ word (codes "mint") ∷ word host ∷ []
child_cmd o validate host = word o.exe ∷ word (codes "validate") ∷ word host ∷ []
child_cmd o quarantine_on_register host =
    word o.exe
    ∷ word (codes "quarantine-on-register")
    ∷ word host
    ∷ watch_flags o.watch_max_wait_seconds
child_cmd o add_to_group host =
    word o.exe ∷ word (codes "add-to-group") ∷ word host ∷ hold_flag o.quarantine_on_register
child_cmd o provision host =
    word o.exe
      ∷ word (codes "provision")
      ∷ word host
      ∷ flag_if (not o.wait) (word (codes "--no-wait") ∷ [])
    ++ (hold_flag o.quarantine_on_register ++ gate_flags o)

-- `watch_max_wait_seconds`, as the action needs it.
unfoldable pub watch_seconds : Settings → Action → ℕ → ℕ
watch_seconds s quarantine_on_register n =
    if n == 0 then s.bootstrap_max_wait_seconds + s.quarantine_on_register_max_wait_seconds else n
watch_seconds s _ n = n

-- The default of `per_host_timeout`.
unfoldable pub default_timeout : Settings → Action → Options → ℕ
default_timeout s provision o =
    if o.wait
    then s.bootstrap_max_wait_seconds
      + 900
      + (if o.quarantine_on_register then s.quarantine_on_register_max_wait_seconds else 0)
    else 1800
default_timeout s os_update o = 600
default_timeout s quarantine_on_register o = o.watch_max_wait_seconds + 300
default_timeout s validate o = 300
default_timeout s add_to_group o =
    if o.quarantine_on_register
    then s.bootstrap_max_wait_seconds + s.quarantine_on_register_max_wait_seconds + 300
    else 300
default_timeout s preflight o = 1800
default_timeout s mint o = 1800

-- The options with the defaults of the settings filled in.
unfoldable pub filled : Settings → Action → Options → Options
unfolding watch_seconds default_timeout
filled s action o =
    let watched = record o {
      expected_os = (if is_empty o.expected_os then s.provision_expected_os else o.expected_os);
      concurrency = (if o.concurrency == 0 then s.batch_max_concurrent else o.concurrency);
      watch_max_wait_seconds = watch_seconds s action o.watch_max_wait_seconds;
    } in
    record watched {
      per_host_timeout =
          (if o.per_host_timeout == 0
            then default_timeout s action watched
            else o.per_host_timeout);
    }

-- `✗` and `▲`
unfoldable pub is_mark : ℕ → Bool
is_mark c = c == 10007 || c == 9650

unfoldable pub is_marked : Text → Bool
unfolding is_mark
is_marked [] = false
is_marked (c ∷ s) = is_mark c

-- `line.lstrip("✗▲ ")`
unfoldable pub strip_marks : Text → Text
unfolding is_mark
strip_marks [] = []
strip_marks (c ∷ s) = if is_mark c || c == 32 then strip_marks s else c ∷ s

-- The non-blank lines, stripped.
unfoldable pub stripped_lines : List Text → List Text
stripped_lines [] = []
stripped_lines (l ∷ ls) =
    let rest = stripped_lines ls in if is_empty (strip l) then rest else strip l ∷ rest

unfoldable pub first_marked : List Text → Option Text
unfolding is_marked strip_marks
first_marked [] = none
first_marked (l ∷ ls) = if is_marked l then some (strip (strip_marks l)) else first_marked ls

unfoldable pub or_first : List Text → Option Text → Text
or_first lines (some l) = l
or_first [] none = []
or_first (l ∷ ls) none = l

-- The lines are looked through from the last.
unfoldable pub last_meaningful_line : Text → Text
unfolding stripped_lines first_marked or_first
last_meaningful_line text =
    let lines = reverse (stripped_lines (split_lines text)) in or_first lines (first_marked lines)
