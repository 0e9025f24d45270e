-- ===== src/Tests/Batches.antt =====
-- A host file of three lines, and batches over its host.
use relops_bootstrap.Hostnames.{matches_short, validate_short}
use relops_bootstrap.Workflow.Capture.{split_lines}
use relops_bootstrap.Prelude.{
  arith, ◌≤◌, ◌<◌, ◌≡◌, refl, true, false, some, List, [], ◌∷◌, Text, codes, is_empty, lower,
  partition, skip, starts_with, strip, text_eq,
}
use relops_bootstrap.Settings.{default_settings}
use relops_bootstrap.Effects.{ok}
use relops_bootstrap.Batch.Hosts.{is_in, read_host_file}
use relops_bootstrap.Batch.Unique.{IsHostList, read_host_file-IsHostList}
use relops_bootstrap.Batch.Commands.{Options, filled, quarantine_on_register, add_to_group}
use relops_bootstrap.Batch.Run.{exited, Child, Phase, run_batch, add_options}
use relops_bootstrap.Batch.Budgets.{filled-watch_outlasted}
use relops_bootstrap.Batch.Results.{other_code}
use relops_bootstrap.Batch.Phases.{IsWatched, run_batch-watches, add_options-clamped}

abbrev wave : Text
wave = codes "# wave 1\nmacmini-m4-81 # rack 3\n macmini-m4-81\n"

abbrev wave_hosts : List Text
wave_hosts = codes "macmini-m4-81" ∷ []

wave_read : read_host_file (some wave) ≡ ok wave_hosts
unfolding read_host_file split_lines is_empty strip partition validate_short matches_short
    starts_with lower skip text_eq
wave_read = refl

read_host_file-IsHostList_example : IsHostList wave wave_hosts
read_host_file-IsHostList_example = read_host_file-IsHostList wave wave_hosts wave_read

abbrev holding : Options
holding = record {
  exe = codes "reprovision";
  expected_os = [];
  allow_sip_enabled = false;
  wait = true;
  quarantine_on_register = true;
  watch_max_wait_seconds = 0;
  per_host_timeout = 0;
  concurrency = 12;
}

filled-watch_outlasted_example :
    (filled default_settings quarantine_on_register holding).watch_max_wait_seconds
    < (filled default_settings quarantine_on_register holding).per_host_timeout
filled-watch_outlasted_example = filled-watch_outlasted default_settings holding refl

-- Each addition fails, as when the host was added and the push was refused.
abbrev refused : Child
refused timeout cmd = exited false 1 []

wave_host : is_in (codes "macmini-m4-81") wave_hosts ≡ true
unfolding is_in text_eq
wave_host = refl

run_batch-watches_example :
    (add : Phase) × (watch : Phase) × (run_batch refused false default_settings holding wave_hosts
        (codes "add-to-group")
      ≡ ok (add ∷ watch ∷ []))
    × IsWatched default_settings (codes "macmini-m4-81") watch
run_batch-watches_example =
    run_batch-watches refused default_settings holding wave_hosts (codes "macmini-m4-81") refl refl
      wave_host (λ h i e. cc) (other_code (λ e. omega (arith, e)))

add_options-clamped_example :
    (filled default_settings add_to_group (add_options default_settings holding)).concurrency ≤ 2
add_options-clamped_example = add_options-clamped default_settings holding (omega arith)
