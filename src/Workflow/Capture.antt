-- ===== src/Workflow/Capture.antt =====
-- `_run_screencapture_script` and `step_screencapture_grant`.
use relops_bootstrap.Prelude.{
  ℕ, zero, suc, ◌+◌, ◌*◌, ◌-◌, Bool, true, false, ◌&&◌, ◌||◌, not, Option, none, some, List, [],
  ◌∷◌, Text, codes, contains, starts_with, skip, strip, is_empty, leb, ltb, ◌==◌, if◌then◌else◌,
}
use relops_bootstrap.Hostnames.{zero_digits}
use relops_bootstrap.Effects.{
  Exec, pure, raise, ask, of_secret, done, ◌>>=◌, ◌>>◌, sleep, run_script, remove_file, value_error,
  reprovision_error, bad_reply, grant_failed,
}
use relops_bootstrap.Clients.Ssh.{run, write_file_as_root}
use relops_bootstrap.Workflow.Context.{HostContext}

abbrev pub screencapture_remote : Text
screencapture_remote = codes "/var/root/screencapture-approve.sh"

-- The characters at which `str.splitlines` ends a line.
unfoldable pub is_line_break : ℕ → Bool
is_line_break c =
    (leb 10 c && leb c 13) || (leb 28 c && leb c 30) || c == 133 || c == 8232 || c == 8233

unfoldable pub on_line : ℕ → List Text → List Text
on_line c [] = (c ∷ []) ∷ []
on_line c (l ∷ ls) = (c ∷ l) ∷ ls

-- `text.splitlines()`, where `\r\n` ends one line.
unfoldable pub split_lines : Text → List Text
unfolding is_line_break on_line
split_lines [] = []
split_lines (c ∷ []) = if is_line_break c then [] ∷ [] else (c ∷ []) ∷ []
split_lines (c ∷ d ∷ s) =
    let rest = split_lines (d ∷ s) in
    if c == 13 && d == 10 then rest else if is_line_break c then [] ∷ rest else on_line c rest

-- The value of a decimal digit of Unicode.
unfoldable pub digit_value : List ℕ → ℕ → Option ℕ
digit_value [] c = none
digit_value (z ∷ zs) c = if leb z c && ltb c (z + 10) then some (c - z) else digit_value zs c

-- The digits of an `int`, with single underscores between them. The flag is set where a digit has to
-- follow: at the start and after an underscore.
unfoldable pub digits_from : Bool → ℕ → Text → Option ℕ
unfolding digit_value
digits_from wants acc [] = if wants then none else some acc
digits_from wants acc (c ∷ s) =
    if c == b'_' && not wants then digits_from true acc s else elim (digit_value zero_digits c) [
      | none ↦ none
      | some d ↦ digits_from false (acc * 10 + d) s
    ]

-- `int(text)`: whether it is negative, and its absolute value; `none` is a `ValueError`.
unfoldable pub signed : Text → Option (Bool × ℕ)
unfolding digits_from
signed [] = none
signed (c ∷ s) =
    if c == b'-'
    then elim (digits_from true 0 s) [ none ↦ none | some n ↦ some (true, n) ]
    else elim (digits_from true 0 (if c == b'+' then s else c ∷ s)) [
      | none ↦ none
      | some n ↦ some (false, n)
    ]

unfoldable pub to_int : Text → Option (Bool × ℕ)
unfolding signed
to_int s = signed (strip s)

-- `rc == k`
unfoldable pub is_rc : Bool × ℕ → ℕ → Bool
is_rc (negative, n) k = n == k && (not negative || n == 0)

-- `int(line[3:] or 1)`
unfoldable pub line_code : Text → Option (Bool × ℕ)
unfolding to_int
line_code s = if is_empty s then some (false, 1) else to_int s

-- `rc = 1`, then the loop over the lines.
unfoldable pub exit_code : Bool × ℕ → List Text → Option (Bool × ℕ)
unfolding line_code
exit_code rc [] = some rc
exit_code rc (line ∷ lines) =
    if starts_with line (codes "rc=")
    then elim (line_code (skip line (codes "rc="))) [ none ↦ none | some c ↦ exit_code c lines ]
    else exit_code rc lines

unfoldable pub or_bad_code : Option (Bool × ℕ) → Exec (Bool × ℕ)
or_bad_code none = raise (value_error bad_reply)
or_bad_code (some rc) = pure rc

-- The exit code of the script, and the lines that it printed.
unfoldable pub run_screencapture_script : HostContext → Exec ((Bool × ℕ) × List Text)
unfolding split_lines exit_code
run_screencapture_script ctx = do
  secret ← ask (λ w. w.admin_password)
  password ← of_secret secret
  write_file_as_root ctx.fqdn screencapture_remote (codes "0700")
  cp ← run ctx.fqdn (run_script screencapture_remote) false
  removed ← run ctx.fqdn (remove_file screencapture_remote) false
  let lines = split_lines (strip cp.stdout)
  rc ← or_bad_code (exit_code (false, 1) lines)
  pure (rc, lines)

abbrev pub not_applicable : Text
not_applicable = codes "[SKIP] not applicable"

-- The first line that begins with `[SKIP]`.
unfoldable pub skip_reason : List Text → Text
skip_reason [] = not_applicable
skip_reason (line ∷ lines) = if starts_with line (codes "[SKIP]") then line else skip_reason lines

-- Exit code 3 with one of `SCREENCAPTURE_TRANSIENT_SKIPS`.
unfoldable pub is_transient : Bool × ℕ → Text → Bool
unfolding is_rc
is_transient rc reason =
    is_rc rc 3
    && (contains reason (codes "does not own the console session")
        || contains reason (codes "running a task"))

unfoldable pub report_grant : Bool × ℕ → Exec (Unit {0})
report_grant rc =
    if is_rc rc 0 then done else if is_rc rc 3 then done else raise (reprovision_error grant_failed)

-- The attempts that are left after this one.
unfoldable pub grant_loop : ℕ → HostContext → Exec (Unit {0})
grant_loop zero ctx = do ran ← run_screencapture_script ctx; report_grant ran.0
grant_loop (suc left) ctx = do
  ran ← run_screencapture_script ctx
  if is_transient ran.0 (skip_reason ran.1)
      then (do sleep 30; grant_loop left ctx)
      else report_grant ran.0

abbrev pub screencapture_attempts : ℕ
screencapture_attempts = 10

unfoldable pub step_screencapture_grant : HostContext → Exec (Unit {0})
step_screencapture_grant ctx = grant_loop (screencapture_attempts - 1) ctx
