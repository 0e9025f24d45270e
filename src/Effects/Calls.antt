-- ===== src/Effects/Calls.antt =====
-- The calls that leave the process, their answers, and the exceptions (orchestrator/errors.py and
-- those of the clients). Bodies that come as JSON are taken decoded, by the fields that are read.
use relops_bootstrap.Prelude.{ℕ, ◌+◌, ◌≤◌, Bool, Option, List, ◌∷◌, Text}
use relops_bootstrap.Settings.{Settings}

-- A `subprocess.CompletedProcess` of ssh, its `subprocess.TimeoutExpired`, or a `run` that could not
-- resolve the identity that it logs in with.
pub data SshReply : Type 0 where
  exited : ℕ → Text → Text → SshReply
  timed_out : SshReply
  no_identity : SshReply

-- The commands that the steps run on a host; shell text stands in the comments.
pub data Command : Type 0 where
  -- sw_vers -productVersion
  os_version : Command
  -- csrutil status
  sip_status : Command
  -- sudo profiles status -type bootstraptoken
  bst_status : Command
  -- sudo profiles install -type bootstraptoken -user … -password …
  bst_install : Text → Text → Command
  -- sudo sysadminctl -secureTokenStatus <user> 2>&1 | sed …
  secure_token : Text → Command
  -- /usr/sbin/ioreg -l | /usr/bin/awk …
  serial_number : Command
  -- /usr/bin/pgrep -f /usr/local/bin/generic-worker
  pgrep_worker : Command
  -- test -f <path> && echo yes || echo no
  test_file : Text → Command
  -- sudo tee <path> > /dev/null && sudo chmod <mode> <path> && sudo chown root:wheel <path>
  write_file : Text → Text → Command
  -- sudo <path>; echo rc=$?
  run_script : Text → Command
  -- sudo rm -f <path>
  remove_file : Text → Command
  -- sudo /usr/bin/nohup <path> >/dev/null 2>&1 & echo launched
  run_detached : Text → Command
  -- sudo tail -5 <path> 2>/dev/null
  tail_log : Text → Command

-- Taskcluster: an answer, a `TaskclusterRestFailure` with its status code, or any other exception.
pub data TcReply (A : Type 0) : Type 0 where
  answer : A → TcReply A
  rest_failure : ℕ → TcReply A
  other_failure : TcReply A

-- `recentTasks`, each with its `taskId` if it has one.
pub record Worker : Type 0 where
  pub recent_tasks : List (Option Text)

-- `status`: its `state`, and the `workerId` of each of its `runs`.
pub record TaskStatus : Type 0 where
  pub state : Option Text
  pub runs : List (Option Text)

-- SimpleMDM: a device record, an assignment group, and the requests.
pub record Device : Type 0 where
  pub id : ℕ
  pub name : Option Text
  pub serial_number : Option Text
  pub status : Option Text
  pub enrolled_at : Option Text

pub record Group : Type 0 where
  pub name : Option Text
  pub apps : List ℕ
  pub devices : List ℕ

-- An entry of a listing, by the fields that are read: of an app, a profile or an assignment group.
pub record Item : Type 0 where
  pub id : ℕ
  pub name : Option Text
  pub bundle_identifier : Option Text
  pub app_type : Option Text
  pub apps : List ℕ
  pub devices : List ℕ

pub data Listing : Type 0 where
  -- /devices/<id>/profiles
  profiles_of : ℕ → Listing
  -- /assignment_groups
  all_groups : Listing
  -- /apps
  all_apps : Listing

pub data Request : Type 0 where
  search_devices : Text → Request
  get_device : ℕ → Request
  get_group : ℕ → Request
  add_device : ℕ → ℕ → Request
  push_apps : ℕ → Request
  -- POST /devices/<id>/wipe with `obliteration_behavior`
  wipe : ℕ → Text → Request
  -- POST /assignment_groups/<id>/apps/<id>
  add_app : ℕ → ℕ → Request
  -- a page of a listing, `starting_after` the item of that id
  list_page : Listing → Option ℕ → Request
  -- POST /devices/<id>/update_os with `os_update_mode` and `version_type`
  update_os : ℕ → Text → Text → Request

pub data Body : Type 0 where
  devices : List Device → Body
  device : Device → Body
  group : Group → Body
  -- `data` and `has_more`
  page : List Item → Bool → Body
  other_body : Body

pub record Response : Type 0 where
  pub status_code : ℕ
  -- `Retry-After`, where it parses as a number of seconds
  pub retry_after : Option ℕ
  pub body : Body

pub data Event : Type 0 where
  read_clock : ℕ → Event
  slept : ℕ → Event
  connected : Text → Bool → Event
  forgot_key : Text → Event
  -- the interactive password login, with `expect`'s exit code unless it timed out
  logged_in : Text → Option ℕ → Event
  ssh : Text → Command → SshReply → Event
  asked_worker : Text → Text → Text → TcReply Worker → Event
  asked_task : Text → TcReply TaskStatus → Event
  -- `quarantineUntil`, and `quarantineInfo` if one is sent
  set_quarantine : Text → Text → Text → Text → Option Text → TcReply (Unit {0}) → Event
  -- an HTTP exchange with SimpleMDM; `none` is a transport error
  http : Request → Option Response → Event

-- The calls so far, the latest first.
abbrev pub History : Type 0
History = List Event

-- Where a message is raised. The wording of the messages is not modelled.
pub data Reason : Type 0 where
  no_sshd no_os_version wrong_os sip_enabled serial_not_enrolled no_device_by_name : Reason
  group_without_apps protected_group not_in_simplemdm bst_unverified escrow_failed : Reason
  idle_unverified still_busy unknown_pool_worker no_reenroll token_not_enabled : Reason
  escrow_not_confirmed no_sentinel no_pkg no_tc_credentials never_registered drain_exceeded : Reason
  login_denied login_timed_out ssh_timed_out ssh_unreachable remote_failed simplemdm_unavailable :
      Reason
  secret_unresolved no_secret no_role no_pool bad_hostname sentinel_missing unfit : Reason
  unreadable_hosts unusable_hosts no_hosts unknown_action : Reason
  upgrade_refused grant_failed watch_needs_wait bad_reply : Reason
  same_group empty_reference no_baseline empty_group parity_gap : Reason
  no_app many_apps app_missing bad_update_mode bad_version_type : Reason

-- `NotReadyError` is a `ReprovisionError`; the others are not.
pub data Failure : Type 0 where
  reprovision_error not_ready timeout_error value_error runtime_error : Reason → Failure
  tc_rest : ℕ → Failure
  tc_other : Failure
  http_status : ℕ → Failure
  transport : Failure
  -- the model's own: a loop ran longer than its fuel
  out_of_fuel : Failure

pub data Result (A : Type 0) : Type 0 where
  ok : A → Result A
  err : Failure → Result A

-- A credential that was fetched; one whose vault did not answer (`SecretResolutionError`, which is a
-- `ReprovisionError`); one that is required and not configured (`RuntimeError`).
pub data Secret (A : Type 0) : Type 0 where
  resolved : A → Secret A
  unresolved : Secret A
  unset : Secret A

pub record World : Type 0 where
  pub settings : Settings
  -- `time.monotonic()`
  pub now : History → ℕ
  pub connect : History → Text → Bool
  pub ssh_run : History → Text → Command → SshReply
  pub password_login : History → Text → Option ℕ
  pub get_worker : History → Text → Text → Text → TcReply Worker
  pub task_status : History → Text → TcReply TaskStatus
  pub quarantine_worker : History → Text → Text → Text → Text → Option Text → TcReply (Unit {0})
  pub request : History → Request → Option Response
  -- `datetime.now(timezone.utc)`, in whole seconds since 1970
  pub utc_now : History → ℕ
  -- `strftime` of such a time, as "%Y-%m-%dT%H:%M:%S.000Z"
  pub strftime : ℕ → Text
  -- the secrets as `orchestrator/secrets.py` resolves them
  pub api_key : Secret Text
  pub admin_password : Secret Text
  pub tc_credentials : Secret (Text × Text)
  -- the model's own: how many pages of a listing are fetched before it is given up
  pub page_fuel : ℕ

-- The clock never goes back, and a sleep takes at least as long as it was asked to.
pub record IsClock (w : World) : Type 0 where
  pub forward : (e : Event) (h : History) → w.now h ≤ w.now (e ∷ h)
  pub sleeps : (n : ℕ) (h : History) → w.now h + n ≤ w.now (slept n ∷ h)
