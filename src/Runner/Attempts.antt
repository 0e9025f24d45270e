-- ===== src/Runner/Attempts.antt =====
-- How `_complete` goes: the attempts, the pauses between them, and the three ways it ends.
use relops_bootstrap.Prelude.{
  ℕ, zero, suc, ◌+◌, ◌-◌, ◌^◌, ◌<◌, min, ◌≡◌, refl, subst, Bool, true, false, ◌∷◌, Text, take,
  if◌then◌else◌, arith,
}
use relops_bootstrap.Traces.Actions.{pure, done, ◌>>◌}
use relops_bootstrap.Traces.Logic.{
  Meets, Post, Meets-pure, Meets-raise, Meets-ask, Meets-call, Meets-if, Meets-catch, Meets-bind,
  Meets-done,
}
use relops_bootstrap.Runner.Calls.{
  Request, complete, Body, Answer, answered, unreachable, broken, posted, slept, Log, Failure,
  http_error, value_error, other_error, Site, Task,
}
use relops_bootstrap.Runner.Api.{
  post_call, of_answer, post, is_success, raise_for_status, on_http_error, catch_http, sleep,
  try_complete, complete_loop, complete_job,
}

-- Hangar did not take the report, in a way that is tried again.
pub data IsTemporary : Answer → Type 0 where
  bad_status : {code : ℕ} {body : Body} → is_success code ≡ false → IsTemporary (answered code body)
  no_answer : {s : Text} → IsTemporary (unreachable s)

module _ (id : ℕ) (success : Bool) (detail : Text) (start : Log) where
  abbrev report : Request
  report = complete id success (take 500 detail)

  -- So many attempts failed since `start`; the pause after each is twice the one before it, at most
  -- 30 seconds.
  pub data Refused : ℕ → Log → Type 0 where
    none_yet : Refused 0 start
    again :
        {n : ℕ} {a : Answer} {l : Log}
        → Refused n l
        → IsTemporary a
        → Refused (suc n) (slept (min (2 ^ n) 30) ∷ posted report a ∷ l)

  -- How the report ends: taken at one of five attempts; given up after five; or another exception.
  pub data Reported : Log → Type 0 where
    taken :
        {n code : ℕ} {body : Body} {l : Log}
        → n < 5
        → Refused n l
        → is_success code ≡ true
        → Reported (posted report (answered code body) ∷ l)
    given_up : {l : Log} → Refused 5 l → Reported l

  pub data Broken : Log → Type 0 where
    broke :
        {n : ℕ} {s : Text} {l : Log} → n < 5 → Refused n l → Broken (posted report (broken s) ∷ l)

  data Asked (n : ℕ) (a : Answer) : Log → Type 0 where
    asked : {l : Log} → Refused n l → Asked n a (posted report a ∷ l)

  module _ (n : ℕ) (few : n < 5) where
    abbrev Tried : Bool → Log → Type 0
    Tried true l =
        (code : ℕ) × (body : Body) × (is_success code ≡ true) × Asked n (answered code body) l
    Tried false l = (a : Answer) × IsTemporary a × Asked n a l

    abbrev Trouble : Failure → Log → Type 0
    Trouble (http_error s) l = Tried false l
    Trouble (value_error s) l = Broken l
    Trouble (other_error s) l = Broken l

    Asked-Broken : {s : Text} (l : Log) → Asked n (broken s) l → Broken l
    Asked-Broken l (asked r) = broke few r

    abbrev Answered : ℕ × Body → Log → Type 0
    Answered a = Asked n (answered a.0 a.1)

    Meets-of_answer :
        {site : Site} (a : Answer) → Meets site (Asked n a) (of_answer a) Answered Trouble
    unfolding of_answer
    Meets-of_answer (answered code body) = Meets-pure _ (λ l x. x)
    Meets-of_answer (unreachable s) = Meets-raise _ (λ l x. (unreachable s, no_answer, x))
    Meets-of_answer (broken s) = Meets-raise _ (λ l x. Asked-Broken l x)

    Meets-raise_for_status :
        {site : Site} (a : ℕ × Body)
        → Meets site (Answered a) (raise_for_status a.0) (λ u. Tried true) Trouble
    unfolding raise_for_status
    Meets-raise_for_status a =
        Meets-if (is_success a.0) _ _ (λ e. Meets-done (λ l x. (a.0, a.1, e, x)))
          (λ e.
            Meets-bind (λ s. Answered a) _ _ (Meets-ask _ (λ l x. x))
              (λ s. Meets-raise _ (λ l x. (answered a.0 a.1, bad_status e, x))))

    Meets-on_http_error :
        {site : Site} (e : Failure)
        → Meets site (Trouble e) (on_http_error (pure false) e) Tried (λ e. Broken)
    unfolding on_http_error
    Meets-on_http_error (http_error s) = Meets-pure {Q = Tried} false (λ l x. x)
    Meets-on_http_error (value_error s) = Meets-raise _ (λ l x. x)
    Meets-on_http_error (other_error s) = Meets-raise _ (λ l x. x)

    Meets-try_complete :
        {site : Site} → Meets site (Refused n) (try_complete id success detail) Tried (λ e. Broken)
    unfolding try_complete catch_http post post_call
    Meets-try_complete =
        Meets-catch Trouble _ _
          (Meets-bind Answered _ _
            (Meets-bind (Asked n) _ _ (Meets-call _ (posted report) (λ l r. asked r))
              Meets-of_answer)
            (λ a.
              Meets-bind (λ u. Tried true) _ _ (Meets-raise_for_status a)
                (λ u. Meets-pure {Q = Tried} true (λ l x. x))))
          Meets-on_http_error

    paused : (l : Log) → Tried false l → Refused (suc n) (slept (min (2 ^ n) 30) ∷ l)
    paused l (a, t, asked r) = again r t

    Tried-Reported : (l : Log) → Tried true l → Reported l
    Tried-Reported l (code, body, e, asked r) = taken few r e

    -- After an attempt: nothing more, or the pause and the rest of the loop.
    Meets-attempted :
        {site : Site} (rest : Task (Unit {0}))
        → Meets site (Refused (suc n)) rest (λ u. Reported) (λ e. Broken)
        → (b : Bool)
        → Meets site
            (Tried b)
            (if b then done else (sleep (min (2 ^ n) 30) >> rest))
            (λ u. Reported)
            (λ e. Broken)
    unfolding sleep
    Meets-attempted rest hr true = Meets-done (λ l x. Tried-Reported l x)
    Meets-attempted rest hr false =
        Meets-bind (λ u. Refused (suc n)) _ _
          (Meets-call _ (λ _. slept (min (2 ^ n) 30)) (λ l x. paused l x)) (λ u. hr)

  Meets-complete_loop :
      {site : Site} (left n : ℕ)
      → left + n ≡ 5
      → Meets site (Refused n) (complete_loop left id success detail) (λ u. Reported) (λ e. Broken)
  unfolding complete_loop
  Meets-complete_loop zero n e =
      Meets-done (λ l r. given_up (subst (λ k. Refused k l) (omega arith) r))
  Meets-complete_loop {site} (suc left) n e =
      let few : n < 5 = omega arith in
      let waits : 4 - left ≡ n = omega arith in
      Meets-bind (Tried n few) _ _ (Meets-try_complete n few) (
        rw waits (
          Meets-attempted n few (complete_loop left id success detail)
            (Meets-complete_loop left (suc n) (omega arith))))

-- In any world, `_complete` returns after Hangar has taken the report, at one of at most five
-- attempts, or after five that Hangar did not answer well, with a pause of 1, 2, 4, 8 and 16 seconds
-- after each that fails; nothing else is done. It raises only if an attempt raises something that is
-- no `httpx.HTTPError`.
pub complete_job-Reported :
    (site : Site) (id : ℕ) (success : Bool) (detail : Text) (start : Log)
    → Post
        (λ u. Reported id success detail start)
        (λ e. Broken id success detail start)
        (complete_job id success detail site start).0
        (complete_job id success detail site start).1
unfolding complete_job
complete_job-Reported site id success detail start =
    (Meets-complete_loop id success detail start 5 0 refl).at start none_yet
