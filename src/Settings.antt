-- ===== src/Settings.antt =====
-- orchestrator/orchestrator/config.py: the settings, with the defaults, but for the refresh rate, a float,
-- and the path of the role map, which nothing reads. Durations are whole seconds. What the credentials
-- and their references resolve to is a parameter (Effects/Calls).
use relops_bootstrap.Prelude.{ℕ, Text, codes}

pub record Settings : Type 0 where
  pub gcp_project : Text
  pub tc_root_url : Text
  pub tc_client_id : Text
  pub tc_client_id_ref : Text
  pub tc_access_token : Text
  pub tc_access_token_ref : Text
  pub simplemdm_api_key : Text
  pub simplemdm_api_key_ref : Text
  pub ssh_admin_user : Text
  pub ssh_admin_key : Text
  pub ssh_admin_key_ref : Text
  pub ssh_admin_password : Text
  pub ssh_admin_password_ref : Text
  pub ssh_command_timeout_seconds : ℕ
  pub builder_sudo_password : Text
  pub builder_sudo_password_ref : Text
  pub drain_poll_seconds : ℕ
  pub drain_max_wait_seconds : ℕ
  pub wipe_poll_seconds : ℕ
  pub wipe_max_wait_seconds : ℕ
  pub bootstrap_poll_seconds : ℕ
  pub bootstrap_max_wait_seconds : ℕ
  pub provision_expected_os : Text
  pub preflight_sshd_wait_seconds : ℕ
  pub batch_max_concurrent : ℕ
  pub quarantine_on_register_poll_seconds : ℕ
  pub quarantine_on_register_max_wait_seconds : ℕ
  pub bootstrap_pkg_poll_seconds : ℕ
  pub bootstrap_pkg_max_wait_seconds : ℕ
  pub bootstrap_group_id : ℕ
  pub reference_group_id : ℕ
  pub group_parity_reference_sample : ℕ
  pub simplemdm_max_concurrent : ℕ

abbrev pub default_settings : Settings
default_settings = record {
  gcp_project = codes "relops-bootstrap";
  tc_root_url = codes "https://firefox-ci-tc.services.mozilla.com";
  tc_client_id = codes "";
  tc_client_id_ref = codes "op://RelOps/Taskcluster Quarantine/username";
  tc_access_token = codes "";
  tc_access_token_ref = codes "op://RelOps/Taskcluster Quarantine/password";
  simplemdm_api_key = codes "";
  simplemdm_api_key_ref = codes "op://RelOps/SimpleMDM API admin VNC/password";
  ssh_admin_user = codes "admin";
  ssh_admin_key = codes "";
  ssh_admin_key_ref = codes "op://RelOps/RelOps Worker Admin Key/notesPlain";
  ssh_admin_password = codes "";
  ssh_admin_password_ref =
      codes "op://RelOps/DEP Provisioned Mac Admin Account SimpleMDM SSH/password";
  ssh_command_timeout_seconds = 120;
  builder_sudo_password = codes "";
  builder_sudo_password_ref = codes "";
  drain_poll_seconds = 15;
  drain_max_wait_seconds = 3600;
  wipe_poll_seconds = 30;
  wipe_max_wait_seconds = 1800;
  bootstrap_poll_seconds = 30;
  bootstrap_max_wait_seconds = 3600;
  provision_expected_os = codes "15.3";
  preflight_sshd_wait_seconds = 60;
  batch_max_concurrent = 3;
  quarantine_on_register_poll_seconds = 5;
  quarantine_on_register_max_wait_seconds = 900;
  bootstrap_pkg_poll_seconds = 10;
  bootstrap_pkg_max_wait_seconds = 300;
  bootstrap_group_id = 2417981;
  reference_group_id = 2017918;
  group_parity_reference_sample = 5;
  simplemdm_max_concurrent = 2;
}
