-- ===== src/Runner/Keeps.antt =====
-- What the runner's calls keep: a property that survives their requests, whatever is answered.
use relops_bootstrap.Prelude.{
  ℕ, zero, suc, ◌-◌, ◌^◌, min, Bool, true, false, List, [], ◌∷◌, Text, is_empty, strip_right, take,
}
use relops_bootstrap.Traces.Logic.{
  Meets, Holds, Meets-pure, Meets-raise, Meets-ask, Meets-call, Meets-if, Meets-catch, Meets-bind,
  Meets-done,
}
use relops_bootstrap.Runner.Calls.{
  Request, event, complete, Answer, answered, unreachable, broken, posted, slept, Log, Failure,
  http_error, value_error, other_error, Site, Task,
}
use relops_bootstrap.Runner.Api.{
  post_call, of_answer, post, is_success, raise_for_status, on_http_error, catch_http, post_event,
  sleep, try_complete, complete_loop, complete_job,
}
use relops_bootstrap.Runner.Execute.{stream}

-- `P` survives the request.
abbrev pub Bears : (Log → Type 0) → Request → Type 0
Bears P q = (a : Answer) (l : Log) → P l → P (posted q a ∷ l)

module _ {site : Site} {P : Log → Type 0} where
  pub Holds-of_answer : (a : Answer) → Holds site P (of_answer a)
  unfolding of_answer
  Holds-of_answer (answered code body) = Meets-pure _ (λ l p. p)
  Holds-of_answer (unreachable s) = Meets-raise _ (λ l p. p)
  Holds-of_answer (broken s) = Meets-raise _ (λ l p. p)

  pub Holds-post : (q : Request) → Bears P q → Holds site P (post q)
  unfolding post post_call
  Holds-post q bears =
      Meets-bind (λ a. P) _ _ (Meets-call _ (posted q) (λ l p. bears (site.post l q) l p))
        Holds-of_answer

  pub Holds-raise_for_status : (code : ℕ) → Holds site P (raise_for_status code)
  unfolding raise_for_status
  Holds-raise_for_status code =
      Meets-if (is_success code) _ _ (λ e. Meets-done (λ l p. p))
        (λ e. Meets-bind (λ a. P) _ _ (Meets-ask _ (λ l p. p)) (λ s. Meets-raise _ (λ l p. p)))

  pub Holds-on_http_error :
      {A : Type 0} (recover : Task A)
      → Holds site P recover
      → (e : Failure) → Holds site P (on_http_error recover e)
  unfolding on_http_error
  Holds-on_http_error recover hr (http_error s) = hr
  Holds-on_http_error recover hr (value_error s) = Meets-raise _ (λ l p. p)
  Holds-on_http_error recover hr (other_error s) = Meets-raise _ (λ l p. p)

  pub Holds-catch_http :
      {A : Type 0} (m recover : Task A)
      → Holds site P m
      → Holds site P recover
      → Holds site P (catch_http m recover)
  unfolding catch_http
  Holds-catch_http m recover hm hr = Meets-catch (λ e. P) m _ hm (Holds-on_http_error recover hr)

  pub Holds-post_event :
      (id : ℕ) (m : Text) → Bears P (event id (take 500 m)) → Holds site P (post_event id m)
  unfolding post_event
  Holds-post_event id m bears =
      Holds-catch_http _ _
        (Meets-bind (λ a. P) _ _ (Holds-post _ bears) (λ a. Meets-done (λ l p. p)))
        (Meets-done (λ l p. p))

  pub Holds-stream :
      (id : ℕ) (lines : List Text) (last : Text)
      → ((m : Text) → Bears P (event id (take 500 m)))
      → Holds site P (stream id last lines)
  unfolding stream
  Holds-stream id [] last bears = Meets-pure last (λ l p. p)
  Holds-stream id (raw ∷ lines) last bears =
      Meets-if (is_empty (strip_right raw)) _ _ (λ e. Holds-stream id lines last bears)
        (λ e.
          Meets-bind (λ a. P) _ _ (Holds-post_event id _ (bears _))
            (λ u. Holds-stream id lines _ bears))

  module _ (id : ℕ) (success : Bool) (detail : Text)
      (bears : Bears P (complete id success (take 500 detail)))
      (sleeps : (n : ℕ) (l : Log) → P l → P (slept n ∷ l)) where
    pub Holds-try_complete : Holds site P (try_complete id success detail)
    unfolding try_complete
    Holds-try_complete =
        Holds-catch_http _ _
          (Meets-bind (λ a. P) _ _ (Holds-post _ bears)
            (λ a.
              Meets-bind (λ a. P) _ _ (Holds-raise_for_status a.0)
                (λ u. Meets-pure true (λ l p. p))))
          (Meets-pure false (λ l p. p))

    pub Holds-complete_loop : (left : ℕ) → Holds site P (complete_loop left id success detail)
    unfolding complete_loop sleep
    Holds-complete_loop zero = Meets-done (λ l p. p)
    Holds-complete_loop (suc left) =
        Meets-bind (λ a. P) _ _ Holds-try_complete
          λ taken.
            Meets-if taken _ _ (λ e. Meets-done (λ l p. p))
              (λ e.
                Meets-bind (λ a. P) _ _
                  (Meets-call (λ s l. tt) (λ _. slept (min (2 ^ (4 - left)) 30))
                    (λ l p. sleeps _ l p))
                  (λ u. Holds-complete_loop left))

    pub Holds-complete_job : Holds site P (complete_job id success detail)
    unfolding complete_job
    Holds-complete_job = Holds-complete_loop 5

-- A request after which `P'` holds, whatever is answered.
pub Meets-post :
    {site : Site} {P P' : Log → Type 0} (q : Request)
    → ((a : Answer) (l : Log) → P l → P' (posted q a ∷ l))
    → Meets site P (post q) (λ a. P') (λ e. P')
unfolding post post_call
Meets-post {site} {P'} q bears =
    Meets-bind (λ a. P') _ _ (Meets-call _ (posted q) (λ l p. bears (site.post l q) l p))
      Holds-of_answer
