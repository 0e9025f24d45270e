-- ===== src/Runner/Outcomes.antt =====
-- What one job's run does: what it reports, what it starts, and that it reports an end.
use relops_bootstrap.Prelude.{
  ℕ, ◌≤◌, ◌≡◌, refl, ◌==◌, ==_iff, Bool, true, false, Bool-cases, Option, none, some, inl, inr,
  List, [], ◌∷◌, ◌++◌, Text, codes, length, take, length-take,
}
use relops_bootstrap.Hostnames.{validate_short}
use relops_bootstrap.Traces.Actions.{◌>>=◌}
use relops_bootstrap.Traces.Logic.{
  Meets, Holds, Meets-raise, Meets-ask, Meets-asked, Meets-call, Meets-catch, Meets-bind,
  Meets-weaken, Since, next, Added, here, there, Since-map,
}
use relops_bootstrap.Runner.Calls.{
  Job, event, complete, Answer, Child, not_found, refused, garbled, ran, Event, posted, spawned,
  slept, Log, Site, failure_text,
}
use relops_bootstrap.Runner.Jobs.{job_cmd}
use relops_bootstrap.Runner.Api.{complete_job}
use relops_bootstrap.Runner.Execute.{
  popen, stream, start_text, detail_text, finish, run_cmd, reject, hostname_text, action_text,
  start_cmd, run_on, run_job, run_job_guarded,
}
use relops_bootstrap.Runner.Keeps.{Bears, Holds-post_event, Holds-stream, Holds-complete_job}

-- The command line is the one of the job, on the validated hostname.
pub record IsCommand (site : Site) (job : Job) (cmd : List Text) : Type 0 where
  pub host : Text
  pub validated : validate_short job.short ≡ some host
  pub mapped : job_cmd site host job ≡ some cmd

-- The job's command was started, and exited with 0.
pub data HasExited (site : Site) (job : Job) : Event → Type 0 where
  exited :
      {cmd : List Text} {lines : List Text} {negative : Bool} {n : ℕ}
      → IsCommand site job cmd
      → n ≡ 0
      → HasExited site job (spawned cmd (ran lines negative n))

-- What a run of the job may do next.
pub data IsReport (site : Site) (job : Job) (start : Log) : Event → Log → Type 0 where
  progress :
      {m : Text} {a : Answer} {l : Log}
      → length m ≤ 500
      → IsReport site job start (posted (event job.id m) a) l
  wait : {n : ℕ} {l : Log} → IsReport site job start (slept n) l
  failure :
      {d : Text} {a : Answer} {l : Log}
      → length d ≤ 500
      → IsReport site job start (posted (complete job.id false d) a) l
  success :
      {d : Text} {a : Answer} {l : Log}
      → length d ≤ 500
      → Added (HasExited site job) start l
      → IsReport site job start (posted (complete job.id true d) a) l
  launch :
      {cmd : List Text} {child : Child} {l : Log}
      → IsCommand site job cmd
      → IsReport site job start (spawned cmd child) l

module _ (site : Site) (job : Job) (start : Log) where
  abbrev pub Reports : Log → Type 0
  Reports = Since (IsReport site job start) start

  abbrev Exited : Log → Type 0
  Exited l = Reports l × Added (HasExited site job) start l

  Reports-event : (m : Text) → Bears Reports (event job.id (take 500 m))
  Reports-event m a l s = next (progress (length-take 500 m)) s

  Exited-event : (m : Text) → Bears Exited (event job.id (take 500 m))
  Exited-event m a l (s, x) = (next (progress (length-take 500 m)) s, there x)

  Holds-failure : (d : Text) → Holds site Reports (complete_job job.id false d)
  Holds-failure d =
      Holds-complete_job job.id false d (λ a l s. next (failure (length-take 500 d)) s)
        (λ n l s. next wait s)

  Holds-success : (d : Text) → Holds site Exited (complete_job job.id true d)
  Holds-success d =
      Holds-complete_job job.id true d
        (λ a l (s, x). (next (success (length-take 500 d) x) s, there x))
        (λ n l (s, x). (next wait s, there x))

  -- The end of a child that exited with 0, and with anything else.
  Meets-ended :
      (good : Bool) (lines : List Text) (f : Text → Text) (P : Log → Type 0)
      → ((d : Text) → Holds site P (complete_job job.id good d))
      → ((m : Text) → Bears P (event job.id (take 500 m)))
      → Holds site P (stream job.id [] lines >>= λ last. complete_job job.id good (f last))
  Meets-ended good lines f P hc hs =
      Meets-bind (λ a. P) _ _ (Holds-stream job.id lines [] hs) (λ last. hc (f last))

  abbrev Launched : Child → Log → Type 0
  Launched child l =
      Reports l
      × ((lines : List Text) (negative : Bool) (n : ℕ)
          → child ≡ ran lines negative n
          → n ≡ 0
          → Added (HasExited site job) start l)

  Meets-finish :
      (child : Child)
      → Meets site (Launched child) (finish job.id child) (λ a. Reports) (λ e. Reports)
  unfolding finish
  Meets-finish not_found =
      Meets-weaken (λ l (s, x). s) (λ a l s. s) (λ e l s. s)
        (Holds-failure (codes "reprovision CLI not found on the runner host"))
  Meets-finish (refused t) = Meets-raise _ (λ l (s, x). s)
  Meets-finish (garbled lines t) =
      Meets-bind (λ a. Reports) _ _
        (Meets-weaken (λ l (s, x). s) (λ a l s. s) (λ e l s. s)
          (Holds-stream job.id lines [] Reports-event))
        (λ last. Meets-raise _ (λ l s. s))
  Meets-finish (ran lines negative n) = elim (Bool-cases (n == 0)) [
    | inl e ↦
        Meets-weaken (λ l (s, x). (s, x lines negative n refl ((==_iff n 0).0 e))) (λ a l (s, x). s)
          (λ e l (s, x). s)
          (Meets-ended (n == 0) lines (detail_text negative n) Exited (λ d. rw e (Holds-success d))
            Exited-event)
    | inr e ↦
        Meets-weaken (λ l (s, x). s) (λ a l s. s) (λ e l s. s)
          (Meets-ended (n == 0) lines (detail_text negative n) Reports (λ d. rw e (Holds-failure d))
            Reports-event)
  ]

  launched :
      (cmd : List Text) (child : Child) (l : Log)
      → IsCommand site job cmd
      → Reports l
      → Launched child (spawned cmd child ∷ l)
  launched cmd child l c s = (
    next (launch c) s,
    λ lines negative n e z. here (rw e (exited c z)) (Since-map (λ d k q. tt) s),
  )

  Holds-run_cmd :
      (cmd : List Text) → IsCommand site job cmd → Holds site Reports (run_cmd job.id cmd)
  unfolding run_cmd popen
  Holds-run_cmd cmd c =
      Meets-bind (λ a. Reports) _ _ (Meets-ask _ (λ l s. s))
        λ runner.
          Meets-bind (λ a. Reports) _ _
            (Holds-post_event job.id (start_text runner cmd)
              (Reports-event (start_text runner cmd)))
            λ u.
              Meets-bind Launched _ _
                (Meets-call _ (spawned cmd) (λ l s. launched cmd (site.popen l cmd) l c s))
                Meets-finish

  Holds-start_cmd :
      (host : Text) (o : Option (List Text))
      → validate_short job.short ≡ some host
      → job_cmd site host job ≡ o
      → Holds site Reports (start_cmd site job o)
  unfolding start_cmd reject
  Holds-start_cmd host none v c = Holds-failure (codes "rejected: " ++ action_text site job)
  Holds-start_cmd host (some cmd) v c =
      Holds-run_cmd cmd (record { host = host; validated = v; mapped = c })

  Holds-run_on :
      (o : Option Text) → validate_short job.short ≡ o → Holds site Reports (run_on site job o)
  unfolding run_on reject
  Holds-run_on none v = Holds-failure (codes "rejected: " ++ hostname_text site job.short)
  Holds-run_on (some host) v = Holds-start_cmd host (job_cmd site host job) v refl

  pub Holds-run_job_guarded : Holds site Reports (run_job_guarded job)
  unfolding run_job_guarded run_job
  Holds-run_job_guarded =
      Meets-catch (λ e. Reports) _ _
        (Meets-asked _ _ (Holds-run_on (validate_short job.short) refl))
        λ e. Holds-failure (codes "runner error: " ++ failure_text e)
