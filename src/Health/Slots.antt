-- ===== src/Health/Slots.antt =====
-- `collect_host`: both slots of a host.
use relops_bootstrap.Prelude.{
  ℕ, Bool, true, false, ◌&&◌, not, Option, none, some, List, [], ◌∷◌, ◌++◌, Text, codes, text_eq,
  is_empty, partition, decimal, if◌then◌else◌,
}
use relops_bootstrap.Traces.Actions.{pure, ask, call, ◌>>=◌, ◌>>◌}
use relops_bootstrap.Health.Parsers.{etime_s, Facts, lookup, kv}
use relops_bootstrap.Health.Collect.{
  host_probe, Site, WorkerInfo, got_runs, Guest, Slot, agent_error, vm_missing, vm_found, Work, ssh,
  pause, get, or_empty, probe_guest, unasked,
}

-- `slot{i}_<name>`
unfoldable pub slot_key : ℕ → Text → Text
slot_key i name = codes "slot" ++ decimal i ++ codes "_" ++ name

-- `h.get(key) == value`
unfoldable pub fact_is : Text → Text → Facts → Bool
fact_is key value facts = elim (lookup key facts) [ none ↦ false | some v ↦ text_eq v value ]

-- `{"1": True, "0": False}.get(...)`
unfoldable pub yes_or_no : Text → Option Bool
yes_or_no s =
    if text_eq s (codes "1") then some true else if text_eq s (codes "0") then some false else none

-- `h.get("tart_user", "admin")`
unfoldable pub tart_user : Facts → Text
tart_user h = elim (lookup (codes "tart_user") h) [ none ↦ codes "admin" | some u ↦ u ]

unfoldable pub owner_ok : Text → Facts → Option Bool
unfolding get
owner_ok user h =
    let owner = get (codes "cert_owner") h in
    if is_empty owner then none else some (text_eq owner user)

-- `_openssl_date(h.get(key))`, which is `None` for a missing or an empty text.
unfoldable pub date_of : Site → Text → Facts → Option Text
unfolding get
date_of site key h = let v = get key h in if is_empty v then none else site.openssl_date v

unfoldable pub latest_of : Option WorkerInfo → Option Text
latest_of none = none
latest_of (some w) = w.latest_task

unfoldable pub is_known : Option WorkerInfo → Bool
is_known none = false
is_known (some w) = true

unfoldable pub is_quarantined : Option WorkerInfo → Option Bool
unfolding or_empty
is_quarantined none = none
is_quarantined (some w) = some (not (is_empty (or_empty w.quarantine_until)))

-- `runs[-1].get("state") if runs else None`
unfoldable pub last_state : List (Option Text) → Option Text
last_state [] = none
last_state (s ∷ []) = s
last_state (s ∷ t ∷ runs) = last_state (t ∷ runs)

unfoldable pub state_of_runs : Option (List (Option Text)) → Option Text
unfolding last_state
state_of_runs none = none
state_of_runs (some runs) = last_state runs

unfoldable pub task_state : Text → Work (Option Text)
unfolding call state_of_runs
task_state task = do
  runs ← call (λ s l. s.get_runs l task) (got_runs task)
  pure (state_of_runs runs)

-- `task_state(latest) if latest else None`
unfoldable pub state_of : Text → Work (Option Text)
unfolding task_state
state_of latest = if is_empty latest then pure none else task_state latest

unfoldable pub is_false : Option Bool → Bool
is_false none = false
is_false (some b) = not b

-- The guest is asked if that is wanted, it has an address, and the host is not without the key.
unfoldable pub guest_of : Text → Bool → Option Text → Option Bool → Work Guest
unfolding probe_guest unasked is_false
guest_of host probe_guests none key = pure (unasked (some false))
guest_of host probe_guests (some ip) key =
    if probe_guests && (not (is_empty ip) && not (is_false key))
    then probe_guest host ip
    else pure (unasked none)

unfoldable pub found_slot : Text → Text → Facts → ℕ → Bool → Text → Work Slot
unfolding slot_key fact_is yes_or_no tart_user owner_ok date_of latest_of is_known is_quarantined
    state_of guest_of
found_slot host short h i probe_guests vm = do
  site ← ask (λ s. s)
  let wid = lookup (slot_key i (codes "worker")) h
  let worker = site.workers (or_empty wid)
  let key = yes_or_no (get (codes "probe_key") h)
  state ← state_of (or_empty (latest_of worker))
  guest ← guest_of host probe_guests (lookup (slot_key i (codes "ip")) h) key
  pure (
      vm_found short i (record {
        vm_name = vm;
        worker_id = wid;
        vm_state = lookup (slot_key i (codes "state")) h;
        tart_run_uptime_s = etime_s (get (slot_key i (codes "etime")) h);
        vault_present = fact_is (slot_key i (codes "vault")) (codes "1") h;
        registered = is_known worker;
        quarantined = is_quarantined worker;
        last_task_state = state;
        inject_vault = fact_is (codes "inject_vault") (codes "1") h;
        cert_expiry = date_of site (codes "cert_expiry") h;
        cert_not_before = date_of site (codes "cert_not_before") h;
        cert_owner_ok = owner_ok (tart_user h) h;
        checkout_sha = lookup (codes "checkout_sha") h;
        refspec_pinned = fact_is (codes "refspec_pinned") (codes "true") h;
        probe_key_present = key;
        guest = guest;
      }))

-- One round of the loop over the slots.
unfoldable pub collect_slot : Text → Text → Facts → Bool → ℕ → Work Slot
unfolding slot_key get found_slot
collect_slot host short h probe_guests i =
    let vm = get (slot_key i (codes "vm")) h in
    if is_empty vm then pure (vm_missing short i) else found_slot host short h i probe_guests vm

-- The output of the host's probe, which is run again after a failure, and the reason of the first.
unfoldable pub retry_probe : Text → Text × Text → Work (Text × Text)
unfolding ssh pause
retry_probe host (raw, why) = if not (is_empty raw) then pure (raw, why) else (do
  pause 3
  (again, why2) ← ssh host host_probe 120
  pure (again, if is_empty why then why2 else why))

unfoldable pub probe_host : Text → Work (Text × Text)
unfolding ssh retry_probe
probe_host host = do first ← ssh host host_probe 120; retry_probe host first

unfoldable pub failed_slots : Text → Text → List Slot
failed_slots short why =
    agent_error short 1 (codes "ssh failed twice: " ++ why)
    ∷ agent_error short 2 (codes "ssh failed twice: " ++ why)
    ∷ []

unfoldable pub both_slots : Text → Text → Facts → Bool → Work (List Slot)
unfolding collect_slot
both_slots host short h probe_guests = do
  first ← collect_slot host short h probe_guests 1
  second ← collect_slot host short h probe_guests 2
  pure (first ∷ second ∷ [])

unfoldable pub collect_facts : Text → Text → Bool → Text × Text → Work (List Slot)
unfolding failed_slots both_slots kv
collect_facts host short probe_guests (raw, why) =
    if is_empty raw
    then pure (failed_slots short why)
    else both_slots host short (kv raw) probe_guests

unfoldable pub collect_host : Text → Bool → Work (List Slot)
unfolding probe_host collect_facts
collect_host host probe_guests = do
  output ← probe_host host
  collect_facts host (partition b'.' host).0 probe_guests output
