-- ===== src/Tests/Jobs.antt =====
-- A runner with one job, and runs of its loop.
use relops_bootstrap.Workflow.Capture.{to_int}
use relops_bootstrap.Prelude.{
  ◌≤◌, ◌≡◌, refl, true, false, inr, none, some, List, [], ◌∷◌, Text, codes, text_eq, is_empty,
  length, if◌then◌else◌, lower, rstrip, strip,
}
use relops_bootstrap.Traces.Logic.{Since, Post}
use relops_bootstrap.Runner.Calls.{
  Config, Params, Job, Answer, answered, unreachable, ran, Log, Site, other_body,
}
use relops_bootstrap.Runner.Jobs.{job_cmd, action_of}
use relops_bootstrap.Runner.Api.{complete_job}
use relops_bootstrap.Runner.Execute.{run_job_guarded}
use relops_bootstrap.Runner.Outcomes.{IsReport}
use relops_bootstrap.Runner.Completion.{IsEnded, IsBroken, run_job_guarded-IsEnded}
use relops_bootstrap.Runner.Safety.{
  IsRefusal, IsJobCommand, run_job_guarded-IsReport, run_job_guarded-IsRefusal,
  job_cmd-IsJobCommand,
}
use relops_bootstrap.Runner.Attempts.{Reported, Broken, complete_job-Reported}
use relops_bootstrap.Runner.Serve.{
  Server, returned, got, nothing, advance, advance_at, reap, is_idle, idle_server, on_sigterm,
  job_ended, claims, ending,
}
use relops_bootstrap.Runner.Serving.{Run, here, moved, stopped, ended, room, serve-active}
use relops_bootstrap.Runner.Drains.{serve-claims}
use relops_bootstrap.Runner.Finishes.{count, serve-count, serve-returned}
use relops_bootstrap.Runner.Setup.{Environ, read_config, Reloading}
use relops_bootstrap.Runner.Reloads.{CanLogIn, read_config-IsUsable}

abbrev lab_config : Config
lab_config = record {
  api = codes "https://hangar.example/api";
  token = [];
  poll = (false, 10);
  client_cert = codes "/etc/cert";
  client_key = codes "/etc/key";
  max_concurrent = 3;
  unquarantine = true;
  runner_id = codes "r1";
}

abbrev no_params : Params
no_params = record {
  until = [];
  info = [];
  dry_run = false;
  unquarantine = false;
  branch = [];
  min_os = [];
  puppet_only = false;
}

abbrev job_of_action : Text → Job
job_of_action action = record {
  id = 7;
  short = codes "macmini-m4-81";
  action = action;
  params = no_params;
}

-- The first request fails; later ones are taken. The child prints two lines.
abbrev lab_post : Log → Answer
lab_post [] = unreachable (codes "no route")
lab_post (e ∷ l) = answered 200 other_body

abbrev lab_site : Site
lab_site = record {
  config = lab_config;
  sibling = codes "/venv/bin/reprovision";
  has_sibling = true;
  post = λ l q. lab_post l;
  popen = λ l cmd. ran (codes "wiping" ∷ codes "done" ∷ []) false 0;
  repr = λ s. s;
  status_text = λ code. codes "status";
  decode_text = codes "json";
}

run_job_guarded-IsReport_example :
    Since
      (IsReport lab_site (job_of_action []) [])
      []
      (run_job_guarded (job_of_action []) lab_site []).1
run_job_guarded-IsReport_example = run_job_guarded-IsReport lab_site (job_of_action []) []

run_job_guarded-IsEnded_example :
    Post
      (λ u. IsEnded lab_site [] 7)
      (λ e. IsBroken lab_site [] 7)
      (run_job_guarded (job_of_action []) lab_site []).0
      (run_job_guarded (job_of_action []) lab_site []).1
run_job_guarded-IsEnded_example = run_job_guarded-IsEnded lab_site (job_of_action []) []

abbrev newer_job : Job
newer_job = job_of_action (codes "defrost")

run_job_guarded-IsRefusal_example :
    Since (λ e l. IsRefusal newer_job e) [] (run_job_guarded newer_job lab_site []).1
unfolding text_eq action_of is_empty
run_job_guarded-IsRefusal_example = run_job_guarded-IsRefusal lab_site newer_job [] (inr refl)

abbrev lab_cmd : List Text
lab_cmd =
    codes "/venv/bin/reprovision"
    ∷ codes "run"
    ∷ codes "macmini-m4-81"
    ∷ codes "--unquarantine"
    ∷ []

job_cmd-IsJobCommand_example : IsJobCommand (job_of_action []) (codes "macmini-m4-81") lab_cmd
unfolding job_cmd text_eq is_empty
job_cmd-IsJobCommand_example =
    job_cmd-IsJobCommand lab_site (codes "macmini-m4-81") (job_of_action []) lab_cmd refl

complete_job-Reported_example :
    Post
      (λ u. Reported 7 true (codes "exit 0") [])
      (λ e. Broken 7 true (codes "exit 0") [])
      (complete_job 7 true (codes "exit 0") lab_site []).0
      (complete_job 7 true (codes "exit 0") lab_site []).1
complete_job-Reported_example = complete_job-Reported lab_site 7 true (codes "exit 0") []

abbrev lab_job : Job
lab_job = job_of_action []

-- A job is claimed; the signal comes; the job ends; the loop returns.
abbrev claimed_server : Server
claimed_server = advance 1 (got lab_job) (advance 1 nothing (advance 1 nothing idle_server))

claimed-Run : Run 1 idle_server (lab_job ∷ []) [] claimed_server
unfolding claims advance idle_server
claimed-Run = moved (got lab_job) (moved nothing (moved nothing here))

serve-active_example : length claimed_server.active ≤ 1
serve-active_example = serve-active 1 claimed-Run

abbrev stopping : Server
stopping = on_sigterm (advance 1 nothing (advance 1 nothing idle_server))

stopping-Run : Run 1 stopping (lab_job ∷ []) [] (advance 1 (got lab_job) stopping)
unfolding claims advance advance_at on_sigterm idle_server reap is_idle
stopping-Run = moved {cs = []} {t = stopping} (got lab_job) here

serve-claims_example : length (lab_job ∷ []) ≤ room stopping.point
unfolding claims advance advance_at on_sigterm idle_server reap is_idle
serve-claims_example = serve-claims {s = stopping} refl stopping-Run

abbrev ended_server : Server
ended_server = job_ended 0 (on_sigterm claimed_server)

abbrev returned_server : Server
returned_server = advance 1 nothing (advance 1 nothing (advance 1 nothing ended_server))

returned-Run : Run 1 idle_server (lab_job ∷ []) (lab_job ∷ []) returned_server
unfolding claims ending on_sigterm advance idle_server
returned-Run = moved nothing (moved nothing (moved nothing (ended 0 (stopped claimed-Run))))

serve-count_example : count (λ j. true) (lab_job ∷ []) ≡ count (λ j. true) (lab_job ∷ [])
unfolding advance job_ended on_sigterm idle_server
serve-count_example = serve-count (λ j. true) returned-Run refl

serve-returned_example : returned_server.point ≡ returned
unfolding job_ended on_sigterm advance idle_server
serve-returned_example =
    serve-returned 1 nothing nothing nothing ended_server refl refl (λ e. cc) (λ e. cc)

abbrev old_client : Reloading
old_client = record { built = 1; has_client = true; stamp = some (5, 5) }

abbrev renewed_client : Reloading
renewed_client = record { built = 2; has_client = true; stamp = some (9, 9) }

abbrev lab_environ : Environ
lab_environ name =
    if text_eq name (codes "HANGAR_API_URL")
    then some (codes "http://localhost:8000/api/")
    else if text_eq name (codes "REPROVISION_RUNNER_TOKEN")
    then some (codes "t")
    else none

abbrev local_config : Config
local_config = record {
  api = codes "http://localhost:8000/api";
  token = codes "t";
  poll = (false, 10);
  client_cert = [];
  client_key = [];
  max_concurrent = 3;
  unquarantine = true;
  runner_id = codes "box";
}

read_config-IsUsable_example :
    (1 ≤ local_config.max_concurrent) × (is_empty local_config.api ≡ false) × CanLogIn local_config
unfolding read_config to_int strip text_eq is_empty rstrip lower
read_config-IsUsable_example = read_config-IsUsable lab_environ (codes "box") local_config refl
