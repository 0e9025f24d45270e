-- ===== src/Tests/Lab.antt =====
-- A world with one M4 host: registered in the production pool, idle, escrowed, and enrolled again
-- after it has been erased.
use relops_bootstrap.Prelude.{
  ◌+◌, decimal, arith, ℕ, ◌+◌, ◌≤◌, Bool, true, false, none, some, [], ◌∷◌, Text, codes, text_eq,
  if◌then◌else◌,
}
use relops_bootstrap.Settings.{default_settings}
use relops_bootstrap.Effects.{
  World, IsClock, History, Event, slept, http, Secret, resolved, SshReply, exited, Command,
  os_version, sip_status, bst_status, bst_install, secure_token, serial_number, pgrep_worker,
  test_file, write_file, run_script, remove_file, run_detached, tail_log, TcReply, answer,
  rest_failure, Worker, TaskStatus, Request, Response, Body, devices, Device, search_devices,
  get_group, add_device, push_apps, wipe, group, other_body,
}
use relops_bootstrap.Effects
use relops_bootstrap.Workflow.Context.{HostContext}

abbrev pub lab_host : Text
lab_host = codes "macmini-m4-81"

abbrev pub lab_pool : Text
lab_pool = codes "releng-hardware/gecko-t-osx-1500-m4"

-- Time passes in sleeps alone.
abbrev pub lab_now : History → ℕ
lab_now [] = 0
lab_now (slept n ∷ h) = lab_now h + n
lab_now (_ ∷ h) = lab_now h

abbrev pub lab_ssh : Command → SshReply
lab_ssh bst_status = exited 0 (codes "profiles: Bootstrap Token escrowed to server: YES") []
lab_ssh (secure_token user) = exited 0 (codes "ENABLED") []
lab_ssh os_version = exited 0 (codes "15.3") []
lab_ssh sip_status = exited 0 (codes "System Integrity Protection status: disabled.") []
lab_ssh (test_file path) = exited 0 (codes "yes") []
lab_ssh pgrep_worker = exited 1 [] []
lab_ssh (run_script path) = exited 0 (codes "rc=0") []
lab_ssh _ = exited 0 [] []

abbrev pub was_erased : History → Bool
was_erased [] = false
was_erased (http (wipe device mode) r ∷ h) = true
was_erased (_ ∷ h) = was_erased h

abbrev pub lab_device : Bool → Device
lab_device erased = record {
  id = 7;
  name = some lab_host;
  serial_number = some (codes "C07");
  status = some (codes "enrolled");
  enrolled_at = some (if erased then codes "2026-08-20" else codes "2026-08-14");
}

abbrev pub lab_body : Bool → Request → Body
lab_body erased (search_devices name) = devices (lab_device erased ∷ [])
lab_body erased (Effects.get_device id) = Effects.device (lab_device erased)
lab_body erased (get_group id) =
    group (record { name = some (codes "bootstrap"); apps = 1 ∷ []; devices = [] })
lab_body erased _ = other_body

abbrev pub lab_worker : Text → TcReply Worker
lab_worker pool =
    if text_eq pool lab_pool
    then answer (record { recent_tasks = some (codes "T1") ∷ none ∷ [] })
    else rest_failure 404

abbrev pub lab : World
lab = record {
  settings = default_settings;
  now = lab_now;
  connect = λ h host. true;
  ssh_run = λ h host command. lab_ssh command;
  password_login = λ h host. some 0;
  get_worker = λ h pool group id. lab_worker pool;
  task_status = λ h task. answer (record { state = some (codes "completed"); runs = [] });
  quarantine_worker = λ h pool group id until info. answer tt;
  request = λ h q.
      some (record { status_code = 200; retry_after = none; body = lab_body (was_erased h) q });
  utc_now = λ h. 1787184000 + lab_now h;
  strftime = λ t. decimal t;
  api_key = resolved (codes "key");
  admin_password = resolved (codes "secret");
  tc_credentials = resolved (codes "client", codes "token");
  page_fuel = 100;
}

pub lab_forward : (e : Event) (h : History) → lab_now h ≤ lab_now (e ∷ h)
lab_forward (slept n) h = omega arith
lab_forward _ h = omega arith

pub lab-IsClock : IsClock lab
lab-IsClock = record { forward = lab_forward; sleeps = λ n h. omega arith }

abbrev pub lab_ctx : HostContext
lab_ctx = record {
  hostname = lab_host;
  fqdn = codes "macmini-m4-81.test.releng.mdc1.mozilla.com";
  role = codes "gecko_t_osx_1500_m4";
  worker_pool_id = lab_pool;
  worker_group = codes "mdc1";
  simplemdm_device_id = some 7;
  pre_wipe_enrolled_at = none;
  registered = true;
}
