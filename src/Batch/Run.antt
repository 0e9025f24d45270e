-- ===== src/Batch/Run.antt =====
-- `_run_one`, `run_batch` and `_add_to_group_then_watch`. A child process is a parameter: how it ends
-- and what it prints, within a timeout. The children of a phase run side by side; each has its own
-- log and result, so the order in which they end does not show in the results. A child that cannot be
-- run is an `OSError`, which ends the batch when the others have ended. The keyboard interrupt and the
-- report are not modelled; the directories and the roster are taken to be written.
use relops_bootstrap.Prelude.{
  ℕ, suc, ◌+◌, Bool, true, false, ◌&&◌, not, Option, none, some, List, [], ◌∷◌, Text, is_empty, map,
  length, min, ◌==◌, if◌then◌else◌, text_eq,
}
use relops_bootstrap.Settings.{Settings}
use relops_bootstrap.Effects.{Result, ok, err, reprovision_error, unknown_action}
use relops_bootstrap.Batch.Hosts.{unique}
use relops_bootstrap.Batch.Commands.{
  Action, add_to_group, quarantine_on_register, action_of, Options, Word, child_cmd, filled,
  last_meaningful_line,
}

-- A child ended with a code (negative or not), and its log holds a text; it was killed at the timeout;
-- or an `OSError` came of its log's file or of starting it.
pub data Exit : Type 0 where
  exited : Bool → ℕ → Text → Exit
  killed : Text → Exit
  not_run : Exit

abbrev pub Child : Type 0
Child = ℕ → List Word → Exit

pub data State : Type 0 where
  succeeded skipped failed : State

pub data Detail : Type 0 where
  nothing : Detail
  timed_out_after : ℕ → Detail
  line : Text → Detail
  exit_with : Bool → ℕ → Detail

pub record HostResult : Type 0 where
  pub hostname : Text
  pub state : State
  pub detail : Detail

unfoldable pub line_or_code : Text → Bool → ℕ → Detail
line_or_code text negative code = if is_empty text then exit_with negative code else line text

unfoldable pub state_of : Bool → ℕ → State
state_of negative code =
    if code == 0 then succeeded else if not negative && code == 2 then skipped else failed

-- `none` is the `OSError`.
unfoldable pub result_of : Text → ℕ → Exit → Option HostResult
unfolding line_or_code state_of
result_of host timeout not_run = none
result_of host timeout (killed text) =
    some (record { hostname = host; state = failed; detail = timed_out_after timeout })
result_of host timeout (exited negative code text) = some (record {
  hostname = host;
  state = state_of negative code;
  detail = (if code == 0 then nothing else line_or_code (last_meaningful_line text) negative code);
})

unfoldable pub run_one : Child → ℕ → Text → List Word → Option HostResult
unfolding result_of
run_one child timeout host cmd = result_of host timeout (child timeout cmd)

unfoldable pub add_result : Option HostResult → Option (List HostResult) → Option (List HostResult)
add_result (some r) (some rs) = some (r ∷ rs)
add_result _ _ = none

-- `future.result()` of each child: the results, unless one of them raises.
unfoldable pub gather : (Text → Option HostResult) → List Text → Option (List HostResult)
unfolding add_result
gather f [] = some []
gather f (host ∷ hosts) = add_result (f host) (gather f hosts)

unfoldable pub is_failed : State → Bool
is_failed failed = true
is_failed _ = false

unfoldable pub is_skipped : State → Bool
is_skipped skipped = true
is_skipped _ = false

-- `sum(1 for r in results.values() if r.state == "failed")`
unfoldable pub count_failed : List HostResult → ℕ
unfolding is_failed
count_failed [] = 0
count_failed (r ∷ rs) = let n = count_failed rs in if is_failed r.state then suc n else n

-- A phase: the children that it starts, how many at a time, and what became of them, by host, or `none`
-- for an `OSError`.
pub record Phase : Type 0 where
  pub action : Action
  pub concurrency : ℕ
  pub timeout : ℕ
  pub commands : List (List Word)
  pub results : Option (List HostResult)

-- `run_batch` for one action, its defaults filled in.
unfoldable pub one_phase : Child → Bool → Settings → Action → Options → List Text → Phase
one_phase child dry_run s action o hosts =
    let p = filled s action o in
    record {
      action = action;
      concurrency = p.concurrency;
      timeout = p.per_host_timeout;
      commands = map (child_cmd p action) hosts;
      results =
          (if dry_run
            then some []
            else gather (λ host. run_one child p.per_host_timeout host (child_cmd p action host))
                (unique [] hosts));
    }

unfoldable pub was_skipped : Text → List HostResult → Bool
unfolding is_skipped
was_skipped host [] = true
was_skipped host (r ∷ rs) =
    let rest = was_skipped host rs in if text_eq host r.hostname then is_skipped r.state else rest

-- `h in added and added[h].state != "skipped"`
unfoldable pub to_watch : List HostResult → List Text → List Text
unfolding was_skipped
to_watch added [] = []
to_watch added (host ∷ hosts) =
    let rest = to_watch added hosts in if was_skipped host added then rest else host ∷ rest

-- `_add_to_group_then_watch`: the options of its two phases.
unfoldable pub add_options : Settings → Options → Options
add_options s o = record o {
  concurrency =
      min (if o.concurrency == 0 then s.batch_max_concurrent else o.concurrency)
        s.simplemdm_max_concurrent;
  wait = true;
  quarantine_on_register = false;
  watch_max_wait_seconds = 0;
}

unfoldable pub watch_options : Settings → Options → List Text → Options
watch_options s o watch =
    let budget = s.bootstrap_max_wait_seconds + s.quarantine_on_register_max_wait_seconds in
    record o {
      concurrency = length watch;
      expected_os = [];
      allow_sip_enabled = false;
      wait = true;
      quarantine_on_register = false;
      watch_max_wait_seconds = budget;
      per_host_timeout = (if o.per_host_timeout == 0 then budget + 300 else o.per_host_timeout);
    }

unfoldable pub watch_phase : Child → Bool → Settings → Options → List Text → List Phase
watch_phase child dry_run s o [] = []
watch_phase child dry_run s o (h ∷ hs) =
    one_phase child dry_run s quarantine_on_register (watch_options s o (h ∷ hs)) (h ∷ hs) ∷ []

-- The second phase, unless the first one raised.
unfoldable pub then_watch :
    Child → Bool → Settings → Options → List Text → Option (List HostResult) → List Phase
unfolding watch_options watch_phase
then_watch child dry_run s o hosts none = []
then_watch child dry_run s o hosts (some added) =
    watch_phase child dry_run s o (if dry_run then hosts else to_watch added hosts)

unfoldable pub add_to_group_then_watch : Child → Bool → Settings → Options → List Text → List Phase
unfolding add_options then_watch
add_to_group_then_watch child dry_run s o hosts =
    let add = one_phase child dry_run s add_to_group (add_options s o) hosts in
    add ∷ then_watch child dry_run s o hosts add.results

unfoldable pub is_add_to_group : Action → Bool
is_add_to_group add_to_group = true
is_add_to_group _ = false

-- The phases of `run_batch`, in their order; after one that raised there is none.
unfoldable pub phases_of :
    Child → Bool → Settings → Options → List Text → Option Action → Result (List Phase)
unfolding is_add_to_group
phases_of child dry_run s o hosts none = err (reprovision_error unknown_action)
phases_of child dry_run s o hosts (some action) =
    if is_add_to_group action && o.quarantine_on_register
    then ok (add_to_group_then_watch child dry_run s o hosts)
    else ok (one_phase child dry_run s action o hosts ∷ [])

unfoldable pub run_batch :
    Child → Bool → Settings → Options → List Text → Text → Result (List Phase)
unfolding phases_of
run_batch child dry_run s o hosts action = phases_of child dry_run s o hosts (action_of action)

unfoldable pub add_failed : Option (List HostResult) → Option ℕ → Option ℕ
unfolding count_failed
add_failed (some results) (some n) = some (count_failed results + n)
add_failed _ _ = none

-- What `run_batch` returns: the hosts that failed, over its phases, unless one of these raised.
unfoldable pub total_failed : List Phase → Option ℕ
unfolding add_failed
total_failed [] = some 0
total_failed (p ∷ ps) = add_failed p.results (total_failed ps)
