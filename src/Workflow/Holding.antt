-- ===== src/Workflow/Holding.antt =====
-- `step_quarantine_on_register`: a watch that returns has put a quarantine on the worker.
use relops_bootstrap.Prelude.{
  ◌*◌, ◌≡◌, refl, Option, none, some, List, ◌∷◌, Text, codes, is_empty, if◌then◌else◌, contains, ℕ,
  suc, ◌+◌,
}
use relops_bootstrap.Effects.{
  World, History, set_quarantine, answer, rest_failure, other_failure, TcReply, ok, pure, raise,
  call, done, poll_for, ◌>>=◌, ◌>>◌, of_tc, quarantine_call, no_pool,
}
use relops_bootstrap.Effects.Gives.{
  Post, Gives, Gives-pure, Gives-raise, Gives-if, Gives-bind, Gives-map, Post-ok,
}
use relops_bootstrap.Clients.Taskcluster
use relops_bootstrap.Clients.Taskcluster.{find_registered_pool, split_pool}
use relops_bootstrap.Clients.Taskcluster.Busy.{Any}
use relops_bootstrap.Clients.Taskcluster.Pools.{Tried, find_registered_pool-Gives}
use relops_bootstrap.Workflow.Context.{HostContext, candidate_pools, or_value_error}
use relops_bootstrap.Workflow.Hold.{
  in_a_year, quarantine_until, step_quarantine, step_quarantine_on_register, found_pool,
  registered_pool, registration_round,
}
use relops_bootstrap.Workflow.Draining.{RoundPost, LoopPost, AtRound, Gives-poll, Gives-Any}

abbrev pub hold_info : Text
hold_info = codes "fresh host — quarantined on registration pending validation"

-- 365 days after the history, as Taskcluster wants it.
abbrev pub IsInAYear : World → Text → History → Type 0
IsInAYear w until h = until ≡ w.strftime (w.utc_now h + 365 * 86400)

-- The last call set a quarantine on the worker in the pool, until 365 days after it, and Taskcluster
-- took it; before it the worker was found in that pool, by trying the role's pools in order.
abbrev pub IsHeld : World → HostContext → Text → History → Type 0
IsHeld w ctx pool h =
    (pools : List Text) × (before : History) × (until : Text) × (candidate_pools ctx.role
      ≡ some pools)
    × Tried ctx.worker_group ctx.hostname pools (some pool) before
    × IsInAYear w until before
    × (h
        ≡ set_quarantine pool ctx.worker_group ctx.hostname until (some hold_info) (answer tt)
          ∷ before)

-- The last call set this quarantine, in a history with `P`, and Taskcluster took it.
abbrev WasSet : (History → Type 0) → Text → Text → Text → Text → History → Type 0
WasSet P pool group worker until h =
    (before : History) × P before
    × (h ≡ set_quarantine pool group worker until (some hold_info) (answer tt) ∷ before)

module _ (w : World) (P : History → Type 0) (pool group worker until : Text) where
  answered :
      (reply : TcReply (Unit {0})) (before : History)
      → P before
      → (let h = set_quarantine pool group worker until (some hold_info) reply ∷ before in
          Post (λ u. WasSet P pool group worker until) Any (of_tc reply w h).0 (of_tc reply w h).1)
  unfolding of_tc pure raise
  answered (answer u) before p = (before, p, refl)
  answered (rest_failure code) before p = tt
  answered other_failure before p = tt

  kept : Gives w P done (λ u. P) Any
  unfolding done pure
  kept = record { at = λ h p. p }

  set_call-WasSet :
      Gives w P
        (do
          reply ←
              quarantine_call pool group worker until
                (if is_empty hold_info then none else some hold_info)
          of_tc reply)
        (λ u. WasSet P pool group worker until)
        Any
  unfolding quarantine_call call ◌>>=◌ is_empty
  set_call-WasSet = record {
    at = λ h p. answered (w.quarantine_worker h pool group worker until (some hold_info)) h p;
  }

  quarantine-WasSet :
      Gives w P
        (Taskcluster.quarantine pool group worker until hold_info)
        (λ u. WasSet P pool group worker until)
        Any
  unfolding Taskcluster.quarantine split_pool
  quarantine-WasSet =
      Gives-bind (λ u. P) _ _
        (Gives-if (contains pool (codes "/")) done _ (λ _. kept) (λ _. Gives-raise _ (λ h p. tt)))
        (λ u. set_call-WasSet)

module _ (w : World) (P : History → Type 0) where
  abbrev Dated : Text → History → Type 0
  Dated until h = P h × IsInAYear w until h

  abbrev WasDated : Text → Text → Text → History → Type 0
  WasDated pool group worker h = (until : Text) × WasSet (Dated until) pool group worker until h

  in_a_year-Dated : Gives w P in_a_year Dated Any
  unfolding in_a_year pure
  in_a_year-Dated = record { at = λ h p. (p, refl) }

  step_quarantine-WasSet :
      (ctx : HostContext)
      → Gives w P
          (step_quarantine ctx none hold_info)
          (λ u. WasDated ctx.worker_pool_id ctx.worker_group ctx.hostname)
          Any
  unfolding step_quarantine quarantine_until
  step_quarantine-WasSet ctx = Gives-bind Dated _ _ in_a_year-Dated (λ until.
      Gives-map (λ h p. p) (λ u h q. (until, q)) (quarantine-WasSet w (Dated until) _ _ _ until))

module _ (w : World) (ctx : HostContext) where
  abbrev FoundIn : List Text → Text → History → Type 0
  FoundIn pools pool h = Tried ctx.worker_group ctx.hostname pools (some pool) h

  registration_round-Found :
      (pools : List Text) (pause : ℕ) (u : Unit {0})
      → Gives w
          (AtRound (λ (u : Unit {0}). Any) u)
          (registration_round ctx pools u)
          (RoundPost pause (λ (u : Unit {0}). Any) (FoundIn pools))
          Any
  unfolding registration_round found_pool
  registration_round-Found pools pause u =
      Gives-bind (λ o h. Tried ctx.worker_group ctx.hostname pools o h) _ _
        (Gives-map (λ h p. tt) (λ o h q. q.1)
          (find_registered_pool-Gives w ctx.worker_group ctx.hostname Any (λ e h p. tt) pools))
        λ o.
          (elim o
            as (λ o.
              Gives w (λ h. Tried ctx.worker_group ctx.hostname pools o h) (pure (found_pool o))
                (RoundPost pause (λ (u : Unit {0}). Any) (FoundIn pools)) Any) [
                  | none ↦ Gives-pure _ (λ h t. tt)
                  | some pool ↦ Gives-pure _ (λ h t. t)
                ])

  or_value_error-some :
      (o : Option (List Text))
      → Gives w Any (or_value_error no_pool o) (λ pools h. o ≡ some pools) Any
  unfolding or_value_error
  or_value_error-some none = Gives-raise _ (λ h p. tt)
  or_value_error-some (some pools) = Gives-pure pools (λ h p. refl)

  registered_pool-Found :
      (pools : List Text) (pause : ℕ) (o : Option Text)
      → Gives w
          (LoopPost pause (λ (u : Unit {0}). Any) (FoundIn pools) o)
          (registered_pool o)
          (FoundIn pools)
          Any
  unfolding registered_pool
  registered_pool-Found pools pause none = Gives-raise _ (λ h p. tt)
  registered_pool-Found pools pause (some pool) = Gives-pure pool (λ h t. t)

  watch-Found :
      (pools : List Text) (budget pause : ℕ)
      → Gives w Any
          (poll_for budget pause (registration_round ctx pools) tt)
          (LoopPost pause (λ (u : Unit {0}). Any) (FoundIn pools))
          Any
  unfolding poll_for
  watch-Found pools budget pause =
      Gives-bind (λ start. Any) _ _ (Gives-Any _)
        λ start.
          Gives-poll (registration_round ctx pools) pause (λ (u : Unit {0}). Any) (FoundIn pools)
            (registration_round-Found pools pause) (start + budget) (suc budget) tt

  abbrev Held : HostContext → History → Type 0
  Held held h =
      IsHeld w ctx held.worker_pool_id h
      × (held ≡ record ctx { worker_pool_id = held.worker_pool_id })

  hold-Held :
      (pools : List Text) (pool : Text)
      → candidate_pools ctx.role ≡ some pools
      → Gives w
          (FoundIn pools pool)
          (do
            step_quarantine (record ctx { worker_pool_id = pool }) none hold_info
            pure (record ctx { worker_pool_id = pool }))
          Held
          Any
  hold-Held pools pool e =
      Gives-bind (λ u. WasDated w (FoundIn pools pool) pool ctx.worker_group ctx.hostname) _ _
        (step_quarantine-WasSet w (FoundIn pools pool) (record ctx { worker_pool_id = pool }))
        λ u. Gives-pure _ (λ h (until, (before, (tried, dated), last)).
          ((pools, before, until, e, tried, dated, last), refl))

  step_quarantine_on_register-Held :
      (o : Option ℕ) → Gives w Any (step_quarantine_on_register ctx o) Held Any
  unfolding step_quarantine_on_register
  step_quarantine_on_register-Held o =
      Gives-bind (λ s. Any) _ _ (Gives-Any _)
        λ s.
          Gives-bind (λ u. Any) _ _ (Gives-Any _)
            λ u.
              Gives-bind (λ pools h. candidate_pools ctx.role ≡ some pools) _ _
                (or_value_error-some _)
                λ pools. record {
                  at = λ h e.
                      (Gives-bind
                          (LoopPost s.quarantine_on_register_poll_seconds (λ (u : Unit {0}). Any)
                            (FoundIn pools))
                          _ _ (watch-Found pools _ _)
                          λ r.
                            Gives-bind (FoundIn pools) _ _
                              (registered_pool-Found pools s.quarantine_on_register_poll_seconds r)
                              λ pool. hold-Held pools pool e).at
                        h tt;
                }

-- In any world and after any history: when `step_quarantine_on_register` returns, its last call put a
-- quarantine on the worker until 365 days after it, and Taskcluster took it, in the pool that the returned context names; in
-- that pool the worker had been found, by trying the pools of the host's role in order.
pub step_quarantine_on_register-IsHeld :
    (w : World) (ctx held : HostContext) (max_wait : Option ℕ) (h h' : History)
    → step_quarantine_on_register ctx max_wait w h ≡ (ok held, h')
    → IsHeld w ctx held.worker_pool_id h'
      × (held ≡ record ctx { worker_pool_id = held.worker_pool_id })
step_quarantine_on_register-IsHeld w ctx held max_wait h h' e =
    Post-ok Any (Held w ctx) held (step_quarantine_on_register ctx max_wait w h) h' e
      ((step_quarantine_on_register-Held w ctx max_wait).at h tt)
