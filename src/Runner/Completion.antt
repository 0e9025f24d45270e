-- ===== src/Runner/Completion.antt =====
-- Running a job ends with a report of its end.
use relops_bootstrap.Prelude.{ℕ, Bool, false, Option, none, some, List, [], Text, codes, ◌==◌, ◌++◌}
use relops_bootstrap.Hostnames.{validate_short}
use relops_bootstrap.Traces.Logic.{
  Meets, Holds, Meets-raise, Meets-ask, Meets-asked, Meets-call, Meets-catch, Meets-bind,
  Meets-weaken, Post, Post-weaken, Since, at_start, next,
}
use relops_bootstrap.Runner.Calls.{
  Job, Child, not_found, refused, garbled, ran, spawned, Log, Site, Task, failure_text,
}
use relops_bootstrap.Runner.Jobs.{job_cmd}
use relops_bootstrap.Runner.Api.{post_event, complete_job}
use relops_bootstrap.Runner.Execute.{
  popen, finish, start_text, detail_text, run_cmd, reject, hostname_text, action_text, start_cmd,
  run_on, run_job, run_job_guarded,
}
use relops_bootstrap.Runner.Attempts.{
  Refused, none_yet, again, Reported, Broken, broke, complete_job-Reported,
}
use relops_bootstrap.Runner.Keeps.{Holds-post_event, Holds-stream}

module _ (site : Site) (start : Log) where
  abbrev Later : Log → Type 0
  Later = Since (λ e l. Unit {0}) start

  -- The report of the job's end that stands last: how `_complete` went, from the log that it found.
  pub data IsEnded (id : ℕ) : Log → Type 0 where
    is_ended :
        {success : Bool} {detail : Text} {found l : Log}
        → Later found
        → Reported id success detail found l
        → IsEnded id l

  pub data IsBroken (id : ℕ) : Log → Type 0 where
    is_broken :
        {success : Bool} {detail : Text} {found l : Log}
        → Later found
        → Broken id success detail found l
        → IsBroken id l

  Meets-complete_job :
      (id : ℕ) (success : Bool) (detail : Text)
      → Meets site Later (complete_job id success detail) (λ u. IsEnded id) (λ e. IsBroken id)
  Meets-complete_job id success detail = record {
    at = λ l s.
        Post-weaken (λ u k r. is_ended s r) (λ e k r. is_broken s r)
          (complete_job id success detail site l).0 (complete_job id success detail site l).1
          (complete_job-Reported site id success detail l);
  }

  Refused-Later :
      {id : ℕ} {success : Bool} {detail : Text} {found l : Log} {n : ℕ}
      → Later found
      → Refused id success detail found n l
      → Later l
  Refused-Later s none_yet = s
  Refused-Later s (again r t) = next tt (next tt (Refused-Later s r))

  IsBroken-Later : {id : ℕ} {l : Log} → IsBroken id l → Later l
  IsBroken-Later (is_broken s (broke few r)) = next tt (Refused-Later s r)

  Holds-Later-event : (id : ℕ) (m : Text) → Holds site Later (post_event id m)
  Holds-Later-event id m = Holds-post_event id m (λ a l s. next tt s)

  Meets-reject :
      (id : ℕ) (s : Text) → Meets site Later (reject id s) (λ u. IsEnded id) (λ e. IsBroken id)
  unfolding reject
  Meets-reject id s = Meets-complete_job id false (codes "rejected: " ++ s)

  -- Where the job's own run raises, its end may not have been reported yet.
  module _ (job : Job) where
    abbrev EndsOn : Task (Unit {0}) → Type 0
    EndsOn m = Meets site Later m (λ u. IsEnded job.id) (λ e. Later)

    EndsOn-complete_job :
        (success : Bool) (detail : Text) → EndsOn (complete_job job.id success detail)
    EndsOn-complete_job success detail =
        Meets-weaken (λ l s. s) (λ u l s. s) (λ e l s. IsBroken-Later s)
          (Meets-complete_job job.id success detail)

    EndsOn-finish : (child : Child) → EndsOn (finish job.id child)
    unfolding finish
    EndsOn-finish not_found =
        EndsOn-complete_job false (codes "reprovision CLI not found on the runner host")
    EndsOn-finish (refused s) = Meets-raise _ (λ l s. s)
    EndsOn-finish (garbled lines s) =
        Meets-bind (λ a. Later) _ _ (Holds-stream job.id lines [] (λ m a l s. next tt s))
          (λ last. Meets-raise _ (λ l s. s))
    EndsOn-finish (ran lines negative n) =
        Meets-bind (λ a. Later) _ _ (Holds-stream job.id lines [] (λ m a l s. next tt s))
          (λ last. EndsOn-complete_job (n == 0) (detail_text negative n last))

    EndsOn-start_cmd : (o : Option (List Text)) → EndsOn (start_cmd site job o)
    unfolding start_cmd run_cmd popen reject
    EndsOn-start_cmd none = EndsOn-complete_job false (codes "rejected: " ++ action_text site job)
    EndsOn-start_cmd (some cmd) =
        Meets-bind (λ a. Later) _ _ (Meets-ask _ (λ l s. s))
          λ runner.
            Meets-bind (λ a. Later) _ _ (Holds-Later-event job.id (start_text runner cmd))
              λ u.
                Meets-bind (λ a. Later) _ _ (Meets-call _ (spawned cmd) (λ l s. next tt s))
                  EndsOn-finish

    EndsOn-run_on : (o : Option Text) → EndsOn (run_on site job o)
    unfolding run_on reject
    EndsOn-run_on none =
        EndsOn-complete_job false (codes "rejected: " ++ hostname_text site job.short)
    EndsOn-run_on (some host) = EndsOn-start_cmd (job_cmd site host job)

    Meets-run_job_guarded :
        Meets site Later (run_job_guarded job) (λ u. IsEnded job.id) (λ e. IsBroken job.id)
    unfolding run_job_guarded run_job
    Meets-run_job_guarded =
        Meets-catch (λ e. Later) _ _
          (Meets-weaken (λ l s. s) (λ u l s. s) (λ e l s. s)
            (Meets-asked _ _ (EndsOn-run_on (validate_short job.short))))
          (λ e. Meets-complete_job job.id false (codes "runner error: " ++ failure_text e))

-- In any world, running a job ends with a report of the job's end, whatever its run does and whether or
-- not it raises: either `run_job_guarded` returns, and the last that was done is one that Hangar took,
-- at one of at most five attempts, or five attempts that Hangar did not answer well; or it raises, and
-- the last attempt raised something that is no `httpx.HTTPError`.
pub run_job_guarded-IsEnded :
    (site : Site) (job : Job) (start : Log)
    → Post
        (λ u. IsEnded site start job.id)
        (λ e. IsBroken site start job.id)
        (run_job_guarded job site start).0
        (run_job_guarded job site start).1
run_job_guarded-IsEnded site job start = (Meets-run_job_guarded site start job).at start at_start
