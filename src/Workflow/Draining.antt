-- ===== src/Workflow/Draining.antt =====
-- `step_drain` ends on two idle polls in a row.
use relops_bootstrap.Prelude.{
  arith, ℕ, zero, suc, ◌+◌, ◌≡◌, refl, sym, subst, ◌≤◌, ◌⊎◌, ap, ◌∙◌, Bool, false, Option, none,
  some, ◌∷◌, leb, inl, inr,
}
use relops_bootstrap.Effects.{
  World, History, read_clock, slept, Result, ok, err, Exec, pure, monotonic, sleep, ◌>>=◌, Round,
  found, again, after_round, poll, poll_for,
}
use relops_bootstrap.Effects.Gives.{
  Post, Gives, Gives-pure, Gives-raise, Gives-if, Gives-bind, Gives-done, Gives-map, Post-ok,
}
use relops_bootstrap.Clients.Taskcluster.{is_currently_busy}
use relops_bootstrap.Clients.Taskcluster.Busy.{Any}
use relops_bootstrap.Workflow.Context.{HostContext}
use relops_bootstrap.Workflow.Hold.{drain_round, drained, step_drain}

module _ {A S : Type 0} (pause : ℕ) (Inv : S → History → Type 0) (Q : A → History → Type 0) where
  -- What a round leaves: the result, or what the next round starts from after the pause.
  abbrev pub RoundPost : Round A S → History → Type 0
  RoundPost (found a) h = Q a h
  RoundPost (again s) h = Inv s (slept pause ∷ h)

  abbrev pub LoopPost : Option A → History → Type 0
  LoopPost (some a) h = Q a h
  LoopPost none h = Unit {0}

  module _ {w : World} (round : S → Exec (Round A S)) where
    Gives-after_round :
        (deadline : ℕ) (next : S → Exec (Option A)) (r : Round A S)
        → ((s : S) → Gives w (Inv s) (next s) LoopPost Any)
        → Gives w (RoundPost r) (after_round round deadline pause next r) LoopPost Any
    unfolding after_round pure sleep ◌>>=◌
    Gives-after_round deadline next (found a) gn = record { at = λ h q. q }
    Gives-after_round deadline next (again s) gn = record {
      at = λ h q. (gn s).at (slept pause ∷ h) q;
    }

-- A round starts after the loop has read the clock.
abbrev pub AtRound : {S : Type 0} → (S → History → Type 0) → S → History → Type 0
AtRound Inv s h = (t : ℕ) × (before : History) × (h ≡ read_clock t ∷ before) × Inv s before

module _ {w : World} {A S : Type 0} (round : S → Exec (Round A S)) (pause : ℕ)
    (Inv : S → History → Type 0) (Q : A → History → Type 0)
    (gr : (s : S) → Gives w (AtRound Inv s) (round s) (RoundPost pause Inv Q) Any) where
  pub Gives-poll :
      (deadline fuel : ℕ) (s : S)
      → Gives w (Inv s) (poll round deadline pause fuel s) (LoopPost pause Inv Q) Any
  unfolding poll monotonic
  Gives-poll deadline zero s = Gives-raise _ (λ h p. tt)
  Gives-poll deadline (suc fuel) s =
      Gives-bind (λ now. AtRound Inv s) _ _ (record { at = λ h p. (w.now h, h, refl, p) })
        λ now.
          Gives-if _ _ (pure none)
            (λ _.
              Gives-bind (RoundPost pause Inv Q) _ _ (gr s)
                (λ r. Gives-after_round pause Inv Q round deadline _ r (Gives-poll deadline fuel)))
            (λ _. Gives-pure none (λ h p. tt))

Post-Any : {A : Type 0} (r : Result A) (h : History) → Post (λ a. Any) Any r h
Post-Any (ok a) h = tt
Post-Any (err e) h = tt

-- Nothing is asked and nothing is claimed.
pub Gives-Any : {w : World} {A : Type 0} (m : Exec A) → Gives w Any m (λ a. Any) Any
Gives-Any {w} m = record { at = λ h p. Post-Any (m w h).0 (m w h).1 }

-- The last calls of the history were so many idle checks of the worker, with only a pause and a look
-- at the clock between one and the next.
pub data IdleRun (w : World) (ctx : HostContext) : ℕ → History → Type 0 where
  first :
      {h : History} (before : History)
      → (is_currently_busy ctx.worker_pool_id ctx.worker_group ctx.hostname w before
          ≡ (ok false, h))
      → IdleRun w ctx 1 h
  next :
      {n : ℕ} {h : History} (pause t : ℕ) (before : History)
      → IdleRun w ctx n before
      → (is_currently_busy ctx.worker_pool_id ctx.worker_group ctx.hostname w
            (read_clock t ∷ slept pause ∷ before)
          ≡ (ok false, h))
      → IdleRun w ctx (n + 1) h

module _ (w : World) (ctx : HostContext) (pause : ℕ) where
  abbrev check : Exec Bool
  check = is_currently_busy ctx.worker_pool_id ctx.worker_group ctx.hostname

  -- What the counter stands for.
  abbrev Counted : ℕ → History → Type 0
  Counted n h = (n ≡ 0) ⊎ ((before : History) × (h ≡ slept pause ∷ before) × IdleRun w ctx n before)

  abbrev IdleTwice : Unit {0} → History → Type 0
  IdleTwice u h = (n : ℕ) × (2 ≤ n) × IdleRun w ctx n h

  abbrev AtCheck : ℕ → History → Type 0
  AtCheck = AtRound Counted

  abbrev AfterCheck : ℕ → Bool → History → Type 0
  AfterCheck n busy h = busy ≡ false → IdleRun w ctx (n + 1) h

  run_on :
      (n : ℕ) (h h' : History) → AtCheck n h → check w h ≡ (ok false, h') → IdleRun w ctx (n + 1) h'
  run_on n h h' (t, before, eq, inl z) e =
      subst (λ k. IdleRun w ctx k h') (omega (arith, z)) (first h e)
  run_on n h h' (t, before, eq, inr (b, eq', run)) e =
      next pause t b run (ap (check w) (sym (eq ∙ ap (λ l. read_clock t ∷ l) eq')) ∙ e)

  check-Post :
      (n : ℕ) (h : History) (r : Result Bool) (h' : History)
      → AtCheck n h
      → check w h ≡ (r, h')
      → Post (AfterCheck n) Any r h'
  check-Post n h (ok busy) h' p e = λ idle. run_on n h h' p (e ∙ ap (λ (b : Bool). (ok b, h')) idle)
  check-Post n h (err f) h' p e = tt

  drain_round-Gives :
      (n : ℕ) → Gives w (AtCheck n) (drain_round ctx n) (RoundPost pause Counted IdleTwice) Any
  unfolding drain_round
  drain_round-Gives n =
      Gives-bind (AfterCheck n) _ _
        (record { at = λ h p. check-Post n h (check w h).0 (check w h).1 p refl })
        λ busy.
          Gives-if busy _ _ (λ _. Gives-pure _ (λ h q. inl refl))
            λ free.
              Gives-if (leb 2 (n + 1)) _ _
                (λ enough. Gives-pure _ (λ h q. (n + 1, ground (arith, enough), q free)))
                (λ _. Gives-pure _ (λ h q. inr (h, refl, q free)))

drained-Gives :
    (w : World) (ctx : HostContext) (pause : ℕ) (o : Option (Unit {0}))
    → Gives w
        (LoopPost pause (Counted w ctx pause) (IdleTwice w ctx pause) o)
        (drained o)
        (IdleTwice w ctx pause)
        Any
unfolding drained
drained-Gives w ctx pause (some u) = Gives-done (λ h q. q)
drained-Gives w ctx pause none = Gives-raise _ (λ h q. tt)

step_drain-Gives :
    (w : World) (ctx : HostContext)
    → Gives w Any (step_drain ctx) (λ u h. (n : ℕ) × (2 ≤ n) × IdleRun w ctx n h) Any
unfolding step_drain poll_for monotonic
step_drain-Gives w ctx =
    Gives-bind (λ s. Any) _ _ (Gives-Any _)
      λ s.
        let pause = s.drain_poll_seconds in
        Gives-bind (LoopPost pause (Counted w ctx pause) (IdleTwice w ctx pause)) _ _
          (Gives-bind (λ start. Any) _ _ (Gives-Any _)
            λ start.
              Gives-map (λ h p. inl refl) (λ o h q. q)
                (Gives-poll (drain_round ctx) pause (Counted w ctx pause) (IdleTwice w ctx pause)
                  (drain_round-Gives w ctx pause) (start + s.drain_max_wait_seconds)
                  (suc s.drain_max_wait_seconds) 0))
          (drained-Gives w ctx pause)

-- In any world and after any history: when `step_drain` returns, its last calls were two or more idle
-- answers of the busy check in a row, with only the pause and a look at the clock between them.
pub step_drain-IdleRun :
    (w : World) (ctx : HostContext) (h h' : History)
    → step_drain ctx w h ≡ (ok tt, h')
    → (n : ℕ) × (2 ≤ n) × IdleRun w ctx n h'
step_drain-IdleRun w ctx h h' e =
    Post-ok Any (λ u h. (n : ℕ) × (2 ≤ n) × IdleRun w ctx n h) tt (step_drain ctx w h) h' e
      ((step_drain-Gives w ctx).at h tt)
