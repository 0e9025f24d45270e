-- ===== src/Health/Reports.antt =====
-- The report of a host has one entry for each slot.
use relops_bootstrap.Prelude.{
  ℕ, ◌≡◌, refl, Bool, List, [], ◌∷◌, Text, codes, is_empty, partition, map,
}
use relops_bootstrap.Traces.Actions.{pure, ask, ◌>>=◌, Outcome, returned, raised}
use relops_bootstrap.Traces.Logic.{Post, Meets, Meets-pure, Meets-ask, Meets-if, Meets-bind}
use relops_bootstrap.Health.Parsers.{Facts, kv}
use relops_bootstrap.Health.Collect.{
  Failure, Site, Event, Slot, agent_error, vm_missing, vm_found, get,
}
use relops_bootstrap.Health.Slots.{
  slot_key, collect_slot, found_slot, probe_host, failed_slots, both_slots, collect_facts,
  collect_host,
}
use relops_bootstrap.Health.Refusals.{
  AnyLog, AnyResult, Refusal, probe_host-Runs, state_of-Runs, guest_of-Runs,
}

-- The host and the number of a slot.
abbrev pub slot_id : Slot → Text × ℕ
slot_id (agent_error host i _) = (host, i)
slot_id (vm_missing host i) = (host, i)
slot_id (vm_found host i _) = (host, i)

module _ (w : Site) (host short : Text) (h : Facts) (probe_guests : Bool) (i : ℕ) where
  abbrev NamesSlot : Slot → List Event → Type 0
  NamesSlot s l = slot_id s ≡ (short, i)

  found_slot-names :
      (vm : Text)
      → Meets w AnyLog (found_slot host short h i probe_guests vm) NamesSlot (Refusal probe_guests)
  unfolding found_slot
  found_slot-names vm = Meets-bind AnyResult (ask (λ s. s)) _ (Meets-ask _ (λ l q. tt)) λ site.
      Meets-bind AnyResult _ _ (state_of-Runs w probe_guests _) λ state.
        Meets-bind AnyResult _ _ (guest_of-Runs w probe_guests host _ _)
          λ guest. Meets-pure _ (λ l p. refl)

  collect_slot-names :
      Meets w AnyLog (collect_slot host short h probe_guests i) NamesSlot (Refusal probe_guests)
  unfolding collect_slot
  collect_slot-names =
      let vm = get (slot_key i (codes "vm")) h in
      Meets-if (is_empty vm) (pure (vm_missing short i)) (found_slot host short h i probe_guests vm)
        (λ e. Meets-pure (vm_missing short i) (λ l p. refl)) (λ e. found_slot-names vm)

-- Both slots of the host, in order.
abbrev pub HasSlots : Text → List Slot → Type 0
HasSlots short slots = map slot_id slots ≡ (short, 1) ∷ (short, 2) ∷ []

append_second :
    (w : Site) (host short : Text) (h : Facts) (probe_guests : Bool) (first : Slot)
    → slot_id first ≡ (short, 1)
    → Meets w AnyLog
        (collect_slot host short h probe_guests 2 >>= λ second. pure (first ∷ second ∷ []))
        (λ slots l. HasSlots short slots)
        (Refusal probe_guests)
append_second w host short h probe_guests first one =
    Meets-bind (NamesSlot w host short h probe_guests 2) _ _
      (collect_slot-names w host short h probe_guests 2)
      (λ second. Meets-pure _ (λ l two. rw (one, two) refl))

both_slots-names :
    (w : Site) (host short : Text) (h : Facts) (probe_guests : Bool)
    → Meets w AnyLog
        (both_slots host short h probe_guests)
        (λ slots l. HasSlots short slots)
        (Refusal probe_guests)
unfolding both_slots
both_slots-names w host short h probe_guests =
    Meets-bind (NamesSlot w host short h probe_guests 1) _ _
      (collect_slot-names w host short h probe_guests 1)
      (λ first. record {
        at = λ l one. (append_second w host short h probe_guests first one).at l tt;
      })

collect_facts-names :
    (w : Site) (host short : Text) (probe_guests : Bool) (output : Text × Text)
    → Meets w AnyLog
        (collect_facts host short probe_guests output)
        (λ slots l. HasSlots short slots)
        (Refusal probe_guests)
unfolding collect_facts failed_slots
collect_facts-names w host short probe_guests (raw, why) =
    Meets-if (is_empty raw) (pure (failed_slots short why))
      (both_slots host short (kv raw) probe_guests)
      (λ e. Meets-pure (failed_slots short why) (λ l p. refl))
      (λ e. both_slots-names w host short (kv raw) probe_guests)

-- What `collect_host` gives: both slots, or a failure for one of the reasons.
pub data IsReport (probe_guests : Bool) (short : Text) (l : List Event)
    : Outcome Failure (List Slot) → Type 0 where
  reported :
      {slots : List Slot} → HasSlots short slots → IsReport probe_guests short l (returned slots)
  refused : {e : Failure} → Refusal probe_guests e l → IsReport probe_guests short l (raised e)

Post-IsReport :
    (probe_guests : Bool) (short : Text) (r : Outcome Failure (List Slot)) (l : List Event)
    → Post (λ slots l. HasSlots short slots) (Refusal probe_guests) r l
    → IsReport probe_guests short l r
Post-IsReport probe_guests short (returned slots) l p = reported p
Post-IsReport probe_guests short (raised e) l p = refused p

-- Whatever the probes, Taskcluster and the clock answer: `collect_host` returns a report with an entry
-- for slot 1 and one for slot 2 of the host, in this order, under the host's short name, or it fails
-- in one of three ways: the ssh that it called last gave no UTF-8, or had no key; or guests are to be
-- probed, and `int` did not read a number (numbers of more than 4300 digits and digits other than
-- decimal ones aside).
pub collect_host-IsReport :
    (w : Site) (host : Text) (probe_guests : Bool) (start : List Event)
    → IsReport probe_guests
        (partition b'.' host).0
        (collect_host host probe_guests w start).1
        (collect_host host probe_guests w start).0
unfolding collect_host
collect_host-IsReport w host probe_guests start =
    let short = (partition b'.' host).0 in
    let report =
      Meets-bind AnyResult (probe_host host) (collect_facts host short probe_guests)
        (probe_host-Runs w probe_guests host) (collect_facts-names w host short probe_guests) in
    Post-IsReport probe_guests short _ _ (report.at start tt)
