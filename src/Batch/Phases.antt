-- ===== src/Batch/Phases.antt =====
-- batch.py, `_add_to_group_then_watch`: the two phases of an addition that is to be watched.
use relops_bootstrap.Prelude.{
  arith, ◌+◌, ◌<◌, ◌≤◌, ◌≡◌, ◌≢◌, refl, ap, ◌∙◌, true, false, Option, some, List, [], ◌∷◌, Text,
  text_eq, map, codes,
}
use relops_bootstrap.Settings.{Settings}
use relops_bootstrap.Effects.{ok}
use relops_bootstrap.Batch.Hosts.{is_in, unique}
use relops_bootstrap.Batch.Unique.{unique-keeps}
use relops_bootstrap.Batch.Commands.{
  add_to_group, quarantine_on_register, action_of, Options, child_cmd, filled, watch_seconds,
}
use relops_bootstrap.Batch.Run.{
  Exit, not_run, then_watch, Child, HostResult, run_one, was_skipped, to_watch, Phase, one_phase,
  add_options, watch_options, watch_phase, add_to_group_then_watch, phases_of, run_batch,
}
use relops_bootstrap.Batch.Results.{
  IsUnskipped, result_of-unskipped, result_of-hostname, result_of-some, gather-some,
  gather-unskipped, unique-only, to_watch-keeps,
}

-- What a phase that watches a host does for it: it is one of the children, with the budget for a whole
-- bootstrap, and they have longer than that.
abbrev pub IsWatched : Settings → Text → Phase → Type 0
IsWatched s host p =
    (watched : List Text) × (is_in host watched ≡ true)
    × ((o : Options) × (o.watch_max_wait_seconds
          ≡ s.bootstrap_max_wait_seconds + s.quarantine_on_register_max_wait_seconds)
        × (o.watch_max_wait_seconds < p.timeout)
        × (p.commands ≡ map (child_cmd o quarantine_on_register) watched))

watch_options-timeout :
    (s : Settings) (o : Options) (ws : List Text)
    → o.per_host_timeout ≡ 0
    → (let p = filled s quarantine_on_register (watch_options s o ws) in
        (p.watch_max_wait_seconds
          ≡ s.bootstrap_max_wait_seconds + s.quarantine_on_register_max_wait_seconds)
        × (p.watch_max_wait_seconds < p.per_host_timeout))
unfolding filled watch_seconds watch_options
watch_options-timeout s o ws e = (ground (arith, e), ground (arith, e))

module _ (child : Child) (s : Settings) (o : Options) (host : Text) where
  watch_phase-IsWatched :
      (ws : List Text)
      → o.per_host_timeout ≡ 0
      → is_in host ws ≡ true
      → (p : Phase) × (watch_phase child false s o ws ≡ p ∷ []) × IsWatched s host p
  unfolding watch_phase is_in one_phase
  watch_phase-IsWatched [] e i = absurd (cc)
  watch_phase-IsWatched (h ∷ hs) e i =
      let ws = h ∷ hs in
      let (budget, longer) = watch_options-timeout s o ws e in
      (
        _,
        refl,
        (ws, i, (filled s quarantine_on_register (watch_options s o ws), budget, longer, refl)),
      )

  abbrev adding : Options
  adding = filled s add_to_group (add_options s o)

  abbrev add_phase : List Text → Phase
  add_phase hosts = one_phase child false s add_to_group (add_options s o) hosts

  abbrev adds : Text → Exit
  adds h = child adding.per_host_timeout (child_cmd adding add_to_group h)

  add_phase-unskipped :
      (hosts : List Text)
      → is_in host hosts ≡ true
      → ((h : Text) → is_in h hosts ≡ true → adds h ≢ not_run)
      → IsUnskipped (adds host)
      → (added : List HostResult) × ((add_phase hosts).results ≡ some added)
        × (was_skipped host added ≡ false)
  unfolding one_phase run_one is_in
  add_phase-unskipped hosts i run unskipped =
      let result : (h : Text) → Option HostResult =
        λ h. run_one child adding.per_host_timeout h (child_cmd adding add_to_group h) in
      let (added, e) =
        gather-some result (unique [] hosts)
          (λ h j. result_of-some h _ (adds h) (run h (unique-only h [] hosts j))) in
      (
        added,
        e,
        gather-unskipped result host (unique [] hosts) added
            (λ h r. result_of-hostname h _ (adds h) r)
            (λ r. result_of-unskipped host _ (adds host) r unskipped)
            (unique-keeps host [] hosts i refl) e,
      )

run_batch-add :
    (child : Child) (s : Settings) (o : Options) (hosts : List Text)
    → o.quarantine_on_register ≡ true
    → run_batch child false s o hosts (codes "add-to-group")
      ≡ ok (add_to_group_then_watch child false s o hosts)
unfolding run_batch phases_of action_of text_eq
run_batch-add child s o hosts q = ground (arith, q)

-- A batch that adds hosts to the group and is to hold them, with no timeout given, attaches a watcher to
-- each host whose addition did not exit with 2, the failed and the killed ones included, if each
-- addition's child can be run: a second phase follows, in which the host's child watches for a whole
-- bootstrap and runs under a timeout that is longer than that.
pub run_batch-watches :
    (child : Child) (s : Settings) (o : Options) (hosts : List Text) (host : Text)
    → o.quarantine_on_register ≡ true
    → o.per_host_timeout ≡ 0
    → is_in host hosts ≡ true
    → ((h : Text) → is_in h hosts ≡ true → adds child s o host h ≢ not_run)
    → IsUnskipped (adds child s o host host)
    → (add : Phase) × (watch : Phase) × (run_batch child false s o hosts (codes "add-to-group")
        ≡ ok (add ∷ watch ∷ []))
      × IsWatched s host watch
unfolding add_to_group_then_watch then_watch
run_batch-watches child s o hosts host q e i run unskipped =
    let (added, got, free) = add_phase-unskipped child s o host hosts i run unskipped in
    let (p, eq, watched) =
      watch_phase-IsWatched child s o host (to_watch added hosts) e
        (to_watch-keeps added host hosts i free) in
    (
      add_phase child s o host hosts,
      p,
      run_batch-add child s o hosts q
          ∙ ap (λ r. ok (add_phase child s o host hosts ∷ then_watch child false s o hosts r)) got
          ∙ ap (λ ps. ok (add_phase child s o host hosts ∷ ps)) eq,
      watched,
    )

-- The phase that adds hosts runs no more of them at a time than SimpleMDM bears, whatever is asked for,
-- when that bound is not 0.
pub add_options-clamped :
    (s : Settings) (o : Options)
    → 0 < s.simplemdm_max_concurrent
    → (filled s add_to_group (add_options s o)).concurrency ≤ s.simplemdm_max_concurrent
unfolding filled add_options
add_options-clamped s o positive = ground (arith, positive)
