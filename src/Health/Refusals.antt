-- ===== src/Health/Refusals.antt =====
-- When the parts of `collect_host` raise.
use relops_bootstrap.Prelude.{
  sym, subst, ℕ, ◌≡◌, refl, Bool, true, false, ◌&&◌, not, if◌then◌else◌, Option, none, some, List,
  ◌∷◌, Text, codes, is_empty,
}
use relops_bootstrap.Traces.Actions.{pure, ◌>>=◌}
use relops_bootstrap.Traces.Logic.{Meets, Meets-pure, Meets-raise, Meets-call, Meets-if, Meets-bind}
use relops_bootstrap.Workflow.Capture.{to_int}
use relops_bootstrap.Health.Parsers.{is_digits}
use relops_bootstrap.Health.Collect.{
  SshEnd, ended, timed_out, not_run, undecodable, no_key, ssh_result, Failure, value_error,
  decode_error, secret_error, Signed, strip_dashes, or_value_error, signed_fact, skew, read_clock,
  read_guest, guest_probe, Site, Event, Work, get, ssh, run_probe, pause, probed, paused, got_runs,
  unasked, probe_guest, host_probe, Probe,
}
use relops_bootstrap.Health.Slots.{
  task_state, state_of, guest_of, is_false, retry_probe, probe_host,
}

abbrev pub AnyLog : List Event → Type 0
AnyLog l = Unit {0}

-- Why an action raises: the last call was an ssh whose output could not be read, or which had no key; or
-- a guest that was probed gave something else than a number.
pub data Refusal (probe_guests : Bool) : Failure → List Event → Type 0 where
  unread :
      {host : Text} {p : Probe} {l : List Event}
      → Refusal probe_guests decode_error (probed host p undecodable ∷ l)
  keyless :
      {host : Text} {p : Probe} {l : List Event}
      → Refusal probe_guests secret_error (probed host p no_key ∷ l)
  no_number : {l : List Event} → probe_guests ≡ true → Refusal probe_guests value_error l

abbrev pub AnyResult : {A : Type 0} → A → List Event → Type 0
AnyResult a l = Unit {0}

-- The action returns, or raises for one of these reasons.
abbrev pub Runs : {A : Type 0} → Site → Bool → Work A → Type 0
Runs w probe_guests m = Meets w AnyLog m AnyResult (Refusal probe_guests)

left_holds : (a b : Bool) → (a && b) ≡ true → a ≡ true
left_holds true b h = refl
left_holds false b h = h

module _ (w : Site) (probe_guests : Bool) where
  abbrev Probed : Text → Probe → SshEnd → List Event → Type 0
  Probed host p end l = (before : List Event) × (l ≡ probed host p end ∷ before)

  undecodable-Refusal :
      (host : Text) (p : Probe) (l : List Event)
      → Probed host p undecodable l
      → Refusal probe_guests decode_error l
  undecodable-Refusal host p l (before, e) =
      subst (λ k. Refusal probe_guests decode_error k) (sym e) unread

  no_key-Refusal :
      (host : Text) (p : Probe) (l : List Event)
      → Probed host p no_key l
      → Refusal probe_guests secret_error l
  no_key-Refusal host p l (before, e) =
      subst (λ k. Refusal probe_guests secret_error k) (sym e) keyless

  ssh_result-Runs :
      (host : Text) (p : Probe) (timeout : ℕ) (end : SshEnd)
      → Meets w (Probed host p end) (ssh_result timeout end) AnyResult (Refusal probe_guests)
  unfolding ssh_result
  ssh_result-Runs host p timeout timed_out = Meets-pure _ (λ l q. tt)
  ssh_result-Runs host p timeout (not_run s) = Meets-pure _ (λ l q. tt)
  ssh_result-Runs host p timeout undecodable = Meets-raise _ (undecodable-Refusal host p)
  ssh_result-Runs host p timeout no_key = Meets-raise _ (no_key-Refusal host p)
  ssh_result-Runs host p timeout (ended out error negative n) = Meets-pure _ (λ l q. tt)

  ssh-Runs : (host : Text) (p : Probe) (timeout : ℕ) → Runs w probe_guests (ssh host p timeout)
  unfolding ssh run_probe
  ssh-Runs host p timeout =
      Meets-bind (Probed host p) _ _ (Meets-call _ (probed host p) (λ l q. (l, refl)))
        (ssh_result-Runs host p timeout)

  pause-Runs : (n : ℕ) → Runs w probe_guests (pause n)
  unfolding pause
  pause-Runs n = Meets-call _ (λ _. paused n) (λ l q. tt)

  second-Runs :
      (host why : Text)
      → Runs {A = Text × Text} w probe_guests (
          pause 3 >>= λ u. ssh host host_probe 120 >>= λ second.
          pure (second.0, if is_empty why then second.1 else why))
  second-Runs host why = Meets-bind AnyResult _ _ (pause-Runs 3) λ u.
      Meets-bind AnyResult _ _ (ssh-Runs host host_probe 120) λ second. Meets-pure _ (λ l q. tt)

  retry_probe-Runs :
      (host : Text) (first : Text × Text) → Runs w probe_guests (retry_probe host first)
  unfolding retry_probe
  retry_probe-Runs host (raw, why) =
      Meets-if (not (is_empty raw)) (pure (raw, why)) _ (λ e. Meets-pure (raw, why) (λ l q. tt))
        (λ e. second-Runs host why)

  pub probe_host-Runs : (host : Text) → Runs w probe_guests (probe_host host)
  unfolding probe_host
  probe_host-Runs host =
      Meets-bind AnyResult _ _ (ssh-Runs host host_probe 120) λ first. retry_probe-Runs host first

  task_state-Runs : (task : Text) → Runs w probe_guests (task_state task)
  unfolding task_state
  task_state-Runs task =
      Meets-bind AnyResult _ _ (Meets-call _ (got_runs task) (λ l q. tt))
        λ runs. Meets-pure _ (λ l q. tt)

  pub state_of-Runs : (latest : Text) → Runs w probe_guests (state_of latest)
  unfolding state_of
  state_of-Runs latest =
      Meets-if (is_empty latest) (pure none) (task_state latest) (λ e. Meets-pure none (λ l q. tt))
        (λ e. task_state-Runs latest)

module _ (w : Site) (probe_guests : Bool) (probing : probe_guests ≡ true) where
  or_value_error-Runs : (o : Option Signed) → Runs w probe_guests (or_value_error o)
  unfolding or_value_error
  or_value_error-Runs none = Meets-raise _ (λ l q. no_number probing)
  or_value_error-Runs (some n) = Meets-pure _ (λ l q. tt)

  signed_fact-Runs : (value : Text) → Runs w probe_guests (signed_fact value)
  unfolding signed_fact
  signed_fact-Runs value =
      Meets-if (is_digits (strip_dashes value)) (or_value_error (to_int value)) (pure none)
        (λ e. or_value_error-Runs (to_int value)) (λ e. Meets-pure none (λ l q. tt))

  skew-Runs : (o : Option ℕ) → Runs w probe_guests (skew o)
  unfolding skew
  skew-Runs none = Meets-pure none (λ l q. tt)
  skew-Runs (some epoch) =
      Meets-bind AnyResult _ _ (Meets-call _ read_clock (λ l q. tt)) λ now. Meets-pure _ (λ l q. tt)

  read_guest-Runs : (host ip : Text) → Runs w probe_guests (read_guest host ip)
  unfolding read_guest
  read_guest-Runs host ip =
      Meets-bind AnyResult _ _ (ssh-Runs w probe_guests host (guest_probe ip) 150)
        λ out. Meets-pure _ (λ l q. tt)

  probe_guest-Runs : (host ip : Text) → Runs w probe_guests (probe_guest host ip)
  unfolding probe_guest
  probe_guest-Runs host ip = Meets-bind AnyResult _ _ (read_guest-Runs host ip) λ g.
      Meets-bind AnyResult _ _ (signed_fact-Runs (get (codes "guest_up_s") g)) λ up.
        Meets-bind AnyResult _ _ (skew-Runs _) λ clock.
          Meets-bind AnyResult _ _ (signed_fact-Runs (get (codes "exit69_age_s") g))
            λ age. Meets-pure _ (λ l q. tt)

module _ (w : Site) (probe_guests : Bool) where
  pub guest_of-Runs :
      (host : Text) (ip : Option Text) (key : Option Bool)
      → Runs w probe_guests (guest_of host probe_guests ip key)
  unfolding guest_of
  guest_of-Runs host none key = Meets-pure _ (λ l q. tt)
  guest_of-Runs host (some ip) key =
      let wanted = not (is_empty ip) && not (is_false key) in
      Meets-if (probe_guests && wanted) (probe_guest host ip) (pure (unasked none))
        (λ e. probe_guest-Runs w probe_guests (left_holds probe_guests wanted e) host ip)
        (λ e. Meets-pure (unasked none) (λ l q. tt))
