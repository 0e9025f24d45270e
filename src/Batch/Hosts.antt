-- ===== src/Batch/Hosts.antt =====
-- `read_host_file`: the host list, one short hostname a line.
use relops_bootstrap.Prelude.{
  ℕ, suc, Bool, false, ◌||◌, Option, none, some, List, [], ◌∷◌, Text, text_eq, is_empty, strip,
  partition, ◌==◌, if◌then◌else◌,
}
use relops_bootstrap.Effects.{
  Result, ok, err, reprovision_error, unreadable_hosts, unusable_hosts, no_hosts,
}
use relops_bootstrap.Hostnames.{validate_short}
use relops_bootstrap.Workflow.Capture.{split_lines}

-- `line.split("#", 1)[0].strip()`
unfoldable pub host_name : Text → Text
host_name line = strip (partition b'#' line).0

-- One line: its hostname joins the list, or the line joins the problems.
unfoldable pub add_line : Option Text → List Text × ℕ → List Text × ℕ
add_line none (hosts, problems) = (hosts, suc problems)
add_line (some host) (hosts, problems) = (host ∷ hosts, problems)

-- The hostnames of the lines, and how many lines are unusable.
unfoldable pub scan_lines : List Text → List Text × ℕ
unfolding host_name add_line
scan_lines [] = ([], 0)
scan_lines (line ∷ lines) =
    let rest = scan_lines lines in
    let name = host_name line in if is_empty name then rest else add_line (validate_short name) rest

unfoldable pub is_in : Text → List Text → Bool
is_in h [] = false
is_in h (k ∷ ks) = text_eq h k || is_in h ks

-- `[h for h in hosts if not (h in seen or seen.add(h))]`
unfoldable pub unique : List Text → List Text → List Text
unfolding is_in
unique seen [] = []
unique seen (h ∷ hosts) = if is_in h seen then unique seen hosts else h ∷ unique (h ∷ seen) hosts

unfoldable pub checked_hosts : List Text → ℕ → Result (List Text)
unfolding unique
checked_hosts [] problems =
    if problems == 0
    then err (reprovision_error no_hosts)
    else err (reprovision_error unusable_hosts)
checked_hosts (h ∷ hosts) problems =
    if problems == 0 then ok (unique [] (h ∷ hosts)) else err (reprovision_error unusable_hosts)

-- `none` is a file that cannot be read.
unfoldable pub read_host_file : Option Text → Result (List Text)
unfolding checked_hosts scan_lines
read_host_file none = err (reprovision_error unreadable_hosts)
read_host_file (some raw) =
    let (hosts, problems) = scan_lines (split_lines raw) in checked_hosts hosts problems
