-- ===== src/Clients/Taskcluster/Pools.antt =====
-- taskcluster.py, `find_registered_pool`: which of the candidate pools is given, and when none is.
use relops_bootstrap.Prelude.{
  ◌≡◌, refl, subst, ◌⊎◌, inl, inr, Bool, true, false, Option, none, some, List, [], ◌∷◌, Text,
  contains, codes, if◌then◌else◌, ◌==◌,
}
use relops_bootstrap.Effects.{
  World, History, ok, Failure, tc_rest, value_error, no_pool, TcReply, answer, rest_failure,
  other_failure, Worker, asked_worker, Exec, pure, raise, call, catch, of_tc, worker_call, done,
  ◌>>=◌, ◌>>◌, handle,
}
use relops_bootstrap.Effects.Gives.{
  Post, Gives, Gives-pure, Gives-raise, Gives-if, Gives-bind, Gives-map, Post-ok,
}
use relops_bootstrap.Clients.Taskcluster.{
  split_pool, get_worker, is_404, registered_in, find_registered_pool,
}
use relops_bootstrap.Clients.Taskcluster.Busy.{Saw, here, there, IsMonotone, Any, is-404}

-- The pools were tried in order: each before the one that is given said that it does not know the
-- worker, and the given one answered; with none given they all said so.
abbrev pub Tried : Text → Text → List Text → Option Text → History → Type 0
Tried group worker [] o h = o ≡ none
Tried group worker (pool ∷ pools) o h =
    ((wk : Worker) × (o ≡ some pool) × Saw (asked_worker pool group worker (answer wk)) h)
    ⊎ (Saw (asked_worker pool group worker (rest_failure 404)) h × Tried group worker pools o h)

module _ (w : World) (group worker : Text) where
  -- What one probe has seen.
  abbrev Probed : (History → Type 0) → Text → Bool → History → Type 0
  Probed P pool true h = P h × ((wk : Worker) × Saw (asked_worker pool group worker (answer wk)) h)
  Probed P pool false h = P h × Saw (asked_worker pool group worker (rest_failure 404)) h

  module _ (P : History → Type 0) (mono : IsMonotone P) (pool : Text) where
    probe :
        (reply : TcReply Worker) (h : History)
        → P h
        → Saw (asked_worker pool group worker reply) h
        → (let m = of_tc reply >>= λ (wk : Worker). pure true in
            let f = λ (e : Failure). if is_404 e then pure false else raise e in
            Post
              (Probed P pool)
              Any
              (handle (m w h).0 f w (m w h).1).0
              (handle (m w h).0 f w (m w h).1).1)
    unfolding of_tc ◌>>=◌ pure raise is_404
    probe (answer wk) h p saw = (p, (wk, saw))
    probe other_failure h p saw = tt
    probe (rest_failure code) h p saw =
        (Gives-if {P = λ h. P h × Saw (asked_worker pool group worker (rest_failure code)) h}
            {R = Any} {Q = Probed P pool} (code == 404) (pure false) (raise (tc_rest code))
            (λ e. Gives-pure false (λ h s. (
              s.0,
              subst (λ c. Saw (asked_worker pool group worker (rest_failure c)) h) (is-404 code e)
                  s.1,
            )))
            (λ e. Gives-raise _ (λ h s. tt))).at
          h (p, saw)

    -- The probe, whether or not the pool's name has a slash.
    abbrev known_here : Bool → Exec Bool
    known_here b =
        catch
          (do
            wk ← (do
              if b then done else raise (value_error no_pool)
              reply ← worker_call pool group worker
              of_tc reply)
            pure true)
          (λ e. if is_404 e then pure false else raise e)

    known_here-Probed :
        (b : Bool) (h : History)
        → P h
        → Post (Probed P pool) Any (known_here b w h).0 (known_here b w h).1
    unfolding worker_call call catch ◌>>=◌ done pure raise is_404
    known_here-Probed true h p = probe (w.get_worker h pool group worker) _ (mono _ h p) here
    known_here-Probed false h p = tt

    registered_in-Probed : Gives w P (registered_in pool group worker) (Probed P pool) Any
    unfolding registered_in get_worker split_pool
    registered_in-Probed = record { at = λ h p. known_here-Probed (contains pool (codes "/")) h p }

  pub find_registered_pool-Gives :
      (P : History → Type 0)
      → IsMonotone P
      → (pools : List Text)
      → Gives w P
          (find_registered_pool pools group worker)
          (λ o h. P h × Tried group worker pools o h)
          Any
  unfolding find_registered_pool
  find_registered_pool-Gives P mono [] = Gives-pure none (λ h p. (p, refl))
  find_registered_pool-Gives P mono (pool ∷ pools) =
      Gives-bind (Probed P pool) _ _ (registered_in-Probed P mono pool) λ known.
        (elim known
          as (λ k.
            Gives w (Probed P pool k)
              (if k then pure (some pool) else find_registered_pool pools group worker)
              (λ o h. P h × Tried group worker (pool ∷ pools) o h) Any) [
                | true ↦ Gives-pure (some pool) (λ h p. (p.0, inl (p.1.0, refl, p.1.1)))
                | false ↦
                    Gives-map (λ h p. p) (λ o h q. (q.0.0, inr (q.0.1, q.1)))
                      (find_registered_pool-Gives
                        (λ h. P h × Saw (asked_worker pool group worker (rest_failure 404)) h)
                        (λ e h p. (mono e h p.0, there e p.1)) pools)
              ])

-- In any world and after any history: when `find_registered_pool` returns, it has tried the candidate
-- pools in their order. A pool that it returns has answered for the worker and each pool before it gave
-- a 404; when it returns none, every pool gave a 404.
pub find_registered_pool-Tried :
    (w : World) (pools : List Text) (group worker : Text) (h h' : History) (o : Option Text)
    → find_registered_pool pools group worker w h ≡ (ok o, h')
    → Tried group worker pools o h'
find_registered_pool-Tried w pools group worker h h' o e =
    (Post-ok Any (λ o h. Any h × Tried group worker pools o h) o
      (find_registered_pool pools group worker w h) h' e
      ((find_registered_pool-Gives w group worker Any (λ e h p. tt) pools).at h tt)).1
