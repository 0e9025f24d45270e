-- ===== src/Runner/Api.antt =====
-- `_reset`, `_claim`, `_event` and `_complete`.
use relops_bootstrap.Prelude.{
  ℕ, zero, suc, ◌-◌, ◌^◌, min, Bool, true, false, ◌&&◌, Option, none, List, [], Text, leb, ltb,
  take, if◌then◌else◌,
}
use relops_bootstrap.Traces.Actions.{pure, raise, ask, call, catch, done, ◌>>=◌, ◌>>◌}
use relops_bootstrap.Runner.Calls.{
  Job, Request, reset, claim, event, complete, Body, claimed, orphans, malformed, Answer, answered,
  unreachable, broken, posted, slept, Failure, http_error, value_error, other_error, Task,
}

-- `client.post(...)`
unfoldable pub post_call : Request → Task Answer
unfolding call
post_call q = call (λ site l. site.post l q) (posted q)

unfoldable pub of_answer : Answer → Task (ℕ × Body)
of_answer (answered code body) = pure (code, body)
of_answer (unreachable s) = raise (http_error s)
of_answer (broken s) = raise (other_error s)

unfoldable pub post : Request → Task (ℕ × Body)
unfolding post_call of_answer
post q = do a ← post_call q; of_answer a

unfoldable pub is_success : ℕ → Bool
is_success code = leb 200 code && ltb code 300

-- `r.raise_for_status()`
unfoldable pub raise_for_status : ℕ → Task (Unit {0})
unfolding is_success
raise_for_status code =
    if is_success code
    then done
    else (do s ← ask (λ site. site.status_text code); raise (http_error s))

-- `r.json().get("job")`
unfoldable pub job_of : Body → Task (Option Job)
job_of (claimed job) = pure job
job_of malformed = do s ← ask (λ site. site.decode_text); raise (value_error s)
job_of _ = pure none

unfoldable pub claim_job : Task (Option Job)
unfolding post raise_for_status job_of
claim_job = do (code, body) ← post claim; raise_for_status code; job_of body

-- `except httpx.HTTPError`: other exceptions are raised again.
unfoldable pub on_http_error : {A : Type 0} → Task A → Failure → Task A
on_http_error recover (http_error s) = recover
on_http_error recover (value_error s) = raise (value_error s)
on_http_error recover (other_error s) = raise (other_error s)

unfoldable pub catch_http : {A : Type 0} → Task A → Task A → Task A
unfolding catch on_http_error
catch_http m recover = catch m (on_http_error recover)

-- `r.json().get("failed") or []`
unfoldable pub orphans_of : Body → Task (List ℕ)
orphans_of (orphans failed) = pure failed
orphans_of malformed = do s ← ask (λ site. site.decode_text); raise (value_error s)
orphans_of _ = pure []

unfoldable pub reset_jobs : Task (Unit {0})
unfolding post raise_for_status orphans_of catch_http
reset_jobs =
    catch_http (do (code, body) ← post reset; raise_for_status code; failed ← orphans_of body; done)
      done

unfoldable pub post_event : ℕ → Text → Task (Unit {0})
unfolding post catch_http
post_event id message = catch_http (do _ ← post (event id (take 500 message)); done) done

unfoldable pub sleep : ℕ → Task (Unit {0})
unfolding call
sleep n = call (λ site l. tt) (λ _. slept n)

-- One attempt: whether Hangar took it.
unfoldable pub try_complete : ℕ → Bool → Text → Task Bool
unfolding post raise_for_status catch_http
try_complete id success detail =
    catch_http
      (do
        (code, body) ← post (complete id success (take 500 detail))
        raise_for_status code
        pure true)
      (pure false)

-- `for attempt in range(5)`, where `left` attempts are left.
unfoldable pub complete_loop : ℕ → ℕ → Bool → Text → Task (Unit {0})
unfolding try_complete sleep
complete_loop zero id success detail = done
complete_loop (suc left) id success detail = do
  taken ← try_complete id success detail
  if taken then done else (do sleep (min (2 ^ (4 - left)) 30); complete_loop left id success detail)

unfoldable pub complete_job : ℕ → Bool → Text → Task (Unit {0})
unfolding complete_loop
complete_job id success detail = complete_loop 5 id success detail
