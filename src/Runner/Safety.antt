-- ===== src/Runner/Safety.antt =====
-- What a job can make the runner do.
use relops_bootstrap.Prelude.{
  ℕ, all_of, not, ◌≡◌, ◌≢◌, refl, Bool, true, false, ◌⊎◌, inl, inr, Option, none, some, List, [],
  ◌∷◌, Text, codes, text_eq, text_eq→eq, text_eq_iff, is_empty, String, if◌then◌else◌, arith,
}
use relops_bootstrap.Hostnames.{validate_short}
use relops_bootstrap.Traces.Logic.{after, Since, at_start, Added, here, there, Since-map}
use relops_bootstrap.Runner.Calls.{
  Job, Config, event, complete, Answer, Event, posted, slept, Log, Site,
}
use relops_bootstrap.Runner.Jobs.{action_of, job_args, job_cmd, with_exe, reprovision_exe}
use relops_bootstrap.Runner.Execute.{run_job_guarded}
use relops_bootstrap.Runner.Outcomes.{
  IsCommand, HasExited, exited, IsReport, progress, wait, failure, success, launch,
  Holds-run_job_guarded,
}

-- In any world, what running a job adds to the log is this: progress messages and reports of its end
-- for this job, none longer than 500 characters; pauses; and the start of the command line that the
-- job's action and its validated hostname map to. A report of success comes only after that command
-- was started by this run and exited with 0.
pub run_job_guarded-IsReport :
    (site : Site) (job : Job) (start : Log)
    → Since (IsReport site job start) start (run_job_guarded job site start).1
run_job_guarded-IsReport site job start =
    after (run_job_guarded job) (Holds-run_job_guarded site job start) start at_start

-- An event of a job that is turned away.
pub data IsRefusal (job : Job) : Event → Type 0 where
  tells : (m : Text) (a : Answer) → IsRefusal job (posted (event job.id m) a)
  fails : (d : Text) (a : Answer) → IsRefusal job (posted (complete job.id false d) a)
  waits : {n : ℕ} → IsRefusal job (slept n)

module _ {site : Site} {job : Job} {start : Log}
    (unmapped : (cmd : List Text) → ¬ IsCommand site job cmd) where
  never-exited : {l : Log} → ¬ Added (HasExited site job) start l
  never-exited (here (exited c z) s) = unmapped _ c
  never-exited (there x) = never-exited x

  to_refusal : (e : Event) (l : Log) → IsReport site job start e l → IsRefusal job e
  to_refusal e l (progress short) = tells _ _
  to_refusal e l wait = waits
  to_refusal e l (failure short) = fails _ _
  to_refusal e l (success short x) = absurd (never-exited x)
  to_refusal e l (launch c) = absurd (unmapped _ c)

-- The actions that this runner knows.
abbrev pub known : List Text
known =
    codes "quarantine"
    ∷ codes "unquarantine"
    ∷ codes "builder-upgrade"
    ∷ codes "tart-host-update"
    ∷ codes "reprovision"
    ∷ []

abbrev pub is_unknown : Job → Bool
is_unknown job = all_of (λ k. not (text_eq (action_of job) k)) known

unknown-job_args :
    (config : Config) (host : Text) (job : Job)
    → is_unknown job ≡ true
    → job_args config host job ≡ none
unfolding job_args
unknown-job_args config host job u = ground arith

unknown-job_cmd :
    (site : Site) (host : Text) (job : Job) → is_unknown job ≡ true → job_cmd site host job ≡ none
unfolding job_cmd with_exe
unknown-job_cmd site host job u = rw (unknown-job_args site.config host job u) refl

never-IsCommand :
    {site : Site} {job : Job}
    → (validate_short job.short ≡ none) ⊎ (is_unknown job ≡ true)
    → (cmd : List Text) → ¬ IsCommand site job cmd
never-IsCommand (inl v) cmd c = let e = c.validated in cc
never-IsCommand {site} {job} (inr u) cmd c =
    let e = c.mapped in let e' = unknown-job_cmd site c.host job u in cc

-- In any world, a job whose hostname is refused or whose action is not one of the five that the
-- runner knows starts nothing and is never reported as a success: running it adds pauses and posts
-- for this job alone, which are progress messages and reports of failure.
pub run_job_guarded-IsRefusal :
    (site : Site) (job : Job) (start : Log)
    → (validate_short job.short ≡ none) ⊎ (is_unknown job ≡ true)
    → Since (λ e l. IsRefusal job e) start (run_job_guarded job site start).1
run_job_guarded-IsRefusal site job start bad =
    Since-map (to_refusal (never-IsCommand bad)) (run_job_guarded-IsReport site job start)

-- What a job's command line looks like.
pub record IsJobCommand (job : Job) (host : Text) (cmd : List Text) : Type 0 where
  pub exe : Text
  pub subcommand : Text
  pub rest : List Text
  pub is_cmd : cmd ≡ exe ∷ subcommand ∷ host ∷ rest
  -- `run` is the command that erases.
  pub asked : (subcommand ≢ codes "run") ⊎ (job.action ≡ []) ⊎ (job.action ≡ codes "reprovision")

-- What follows the executable.
record IsArgs (job : Job) (host : Text) (args : List Text) : Type 0 where
  subcommand : Text
  rest : List Text
  is_args : args ≡ subcommand ∷ host ∷ rest
  asked : (subcommand ≢ codes "run") ⊎ (job.action ≡ []) ⊎ (job.action ≡ codes "reprovision")

record AreArgs (job : Job) (host : Text) (o : Option (List Text)) : Type 0 where
  at : (args : List Text) → o ≡ some args → IsArgs job host args

module _ (job : Job) (host : Text) where
  AreArgs-if :
      (b : Bool) (x y : Option (List Text))
      → (b ≡ true → AreArgs job host x)
      → (b ≡ false → AreArgs job host y)
      → AreArgs job host (if b then x else y)
  AreArgs-if true x y hx hy = hx refl
  AreArgs-if false x y hx hy = hy refl

  AreArgs-some :
      (subcommand : Text) (rest : List Text)
      → (subcommand ≢ codes "run") ⊎ (job.action ≡ []) ⊎ (job.action ≡ codes "reprovision")
      → AreArgs job host (some (subcommand ∷ host ∷ rest))
  AreArgs-some subcommand rest asked = record {
    at = λ args e. record { subcommand = subcommand; rest = rest; is_args = cc; asked = asked };
  }

  AreArgs-none : AreArgs job host none
  AreArgs-none = record { at = λ args e. absurd (cc) }

  AreArgs-other :
      (subcommand : Text) (rest : List Text)
      → text_eq subcommand (codes "run") ≡ false
      → AreArgs job host (some (subcommand ∷ host ∷ rest))
  AreArgs-other subcommand rest differs =
      AreArgs-some subcommand rest
        (inl (λ q. let yes = (text_eq_iff subcommand (codes "run")).1 q in cc))

  asked_for :
      (action : Text)
      → text_eq (if is_empty action then codes "reprovision" else action) (codes "reprovision")
        ≡ true
      → (action ≡ []) ⊎ (action ≡ codes "reprovision")
  unfolding is_empty
  asked_for [] e = inl refl
  asked_for (c ∷ s) e = inr (text_eq→eq (c ∷ s) (codes "reprovision") e)

  abbrev is_action : String → Bool
  is_action s = text_eq (action_of job) (codes s)

  job_args-AreArgs : (config : Config) → AreArgs job host (job_args config host job)
  unfolding job_args action_of text_eq
  job_args-AreArgs config =
      AreArgs-if (is_action "quarantine") _ _ (λ e. AreArgs-other (codes "quarantine") _ refl)
        λ _.
          AreArgs-if (is_action "unquarantine") _ _
            (λ e. AreArgs-other (codes "unquarantine") _ refl)
            λ _.
              AreArgs-if (is_action "builder-upgrade") _ _
                (λ e. AreArgs-other (codes "builder-upgrade") _ refl)
                λ _.
                  AreArgs-if (is_action "tart-host-update") _ _
                    (λ e. AreArgs-other (codes "tart-host-update") _ refl)
                    λ _.
                      AreArgs-if (is_action "reprovision") _ _
                        (λ e. AreArgs-some (codes "run") _ (inr (asked_for job.action e)))
                        (λ _. AreArgs-none)

prefixed :
    {job : Job} {host : Text} (exe : Text) (cmd : List Text) (o : Option (List Text))
    → AreArgs job host o
    → with_exe exe o ≡ some cmd
    → IsJobCommand job host cmd
unfolding with_exe
prefixed exe cmd none are e = absurd (cc)
prefixed exe cmd (some args) are e =
    let a = are.at args refl in
    let same = a.is_args in
    record { exe = exe; subcommand = a.subcommand; rest = a.rest; is_cmd = cc; asked = a.asked }

-- The command line of a job names a subcommand and then the host that was given; it is `run`, the
-- command that erases the host, only if the job's action is missing, empty or `reprovision`.
pub job_cmd-IsJobCommand :
    (site : Site) (host : Text) (job : Job) (cmd : List Text)
    → job_cmd site host job ≡ some cmd
    → IsJobCommand job host cmd
unfolding job_cmd
job_cmd-IsJobCommand site host job cmd e =
    prefixed (reprovision_exe site) cmd (job_args site.config host job)
      (job_args-AreArgs job host site.config) e
