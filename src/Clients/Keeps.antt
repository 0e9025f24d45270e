-- ===== src/Clients/Keeps.antt =====
-- The clients' operations keep whatever survives a call that erases nothing, but the erase itself.
use relops_bootstrap.Prelude.{
  ℕ, zero, suc, ◌≡◌, Bool, true, Option, none, some, List, [], ◌∷◌, Text,
}
use relops_bootstrap.Effects.{
  World, History, Request, SshReply, exited, timed_out, no_identity, Command, Failure, tc_rest,
  Body, devices, device, Response, http_call,
}
use relops_bootstrap.Effects.Keeps.{
  Keeps, IsStable, Keeps-bind, Keeps-if, Keeps-pure, Keeps-when, Keeps-sleep, Keeps-http_call,
  is_harmless_request, keeps_rules, Keeps-poll_for,
}
use relops_bootstrap.Clients.Taskcluster.{
  split_pool, get_worker, registered_in, find_registered_pool, get_task_status, skip_unread,
  task_holds, any_holds, recent_tasks, is_currently_busy, quarantine, unquarantine,
}
use relops_bootstrap.Clients.SimpleMdm.{
  of_http, raise_for_status, send, request_loop, request, as_devices, as_device, as_group,
  find_device_by_name, find_device_by_serial, get_device, get_assignment_group,
  assignment_group_device_ids, add_device_to_assignment_group, push_apps,
}
use relops_bootstrap.Clients.Ssh.{
  check_reply, run, file_exists, write_file_as_root, secure_token_status, platform_serial,
  sshd_round, reached, wait_for_sshd, login_result, password_login,
}

module _ {w : World} {P : History → Type 0} where
  Keeps-split_pool : (pool : Text) → Keeps w P (split_pool pool)
  unfolding split_pool
  Keeps-split_pool pool = search keeps_rules

  Keeps-skip_unread : (e : Failure) → Keeps w P (skip_unread e)
  unfolding skip_unread
  Keeps-skip_unread (tc_rest code) = search keeps_rules
  Keeps-skip_unread _ = search keeps_rules

  Keeps-check_reply : (r : SshReply) (check : Bool) → Keeps w P (check_reply r check)
  unfolding check_reply
  Keeps-check_reply timed_out check = search keeps_rules
  Keeps-check_reply no_identity check = search keeps_rules
  Keeps-check_reply (exited code out error) check = search keeps_rules

  Keeps-reached : (o : Option (Unit {0})) → Keeps w P (reached o)
  unfolding reached
  Keeps-reached none = search keeps_rules
  Keeps-reached (some u) = search keeps_rules

  Keeps-login_result : (o : Option ℕ) → Keeps w P (login_result o)
  unfolding login_result
  Keeps-login_result none = search keeps_rules
  Keeps-login_result (some code) = search keeps_rules

  Keeps-of_http : (o : Option Response) → Keeps w P (of_http o)
  unfolding of_http
  Keeps-of_http none = search keeps_rules
  Keeps-of_http (some r) = search keeps_rules

  Keeps-raise_for_status : (r : Response) → Keeps w P (raise_for_status r)
  unfolding raise_for_status
  Keeps-raise_for_status r = search keeps_rules

  Keeps-as_devices : (b : Body) → Keeps w P (as_devices b)
  unfolding as_devices
  Keeps-as_devices (devices ds) = search keeps_rules
  Keeps-as_devices _ = search keeps_rules

  Keeps-as_device : (b : Body) → Keeps w P (as_device b)
  unfolding as_device
  Keeps-as_device (device d) = search keeps_rules
  Keeps-as_device _ = search keeps_rules

  Keeps-as_group : (b : Body) → Keeps w P (as_group b)
  unfolding as_group
  Keeps-as_group (Body.group g) = search keeps_rules
  Keeps-as_group _ = search keeps_rules

ruleset reply_rules = (
  keeps_rules, Keeps-split_pool, Keeps-skip_unread, Keeps-check_reply, Keeps-reached,
  Keeps-login_result, Keeps-of_http, Keeps-raise_for_status, Keeps-as_devices, Keeps-as_device,
  Keeps-as_group,
)

module _ {w : World} {P : History → Type 0} (st : IsStable P) where
  Keeps-get_worker : (pool group id : Text) → Keeps w P (get_worker pool group id)
  unfolding get_worker
  Keeps-get_worker pool group id = search reply_rules

  Keeps-registered_in : (pool group id : Text) → Keeps w P (registered_in pool group id)
  unfolding registered_in
  Keeps-registered_in pool group id = search (reply_rules, Keeps-get_worker)

  pub Keeps-find_registered_pool :
      (pools : List Text) (group id : Text) → Keeps w P (find_registered_pool pools group id)
  unfolding find_registered_pool
  Keeps-find_registered_pool [] group id = search reply_rules
  Keeps-find_registered_pool (pool ∷ pools) group id =
      Keeps-bind _ _ (Keeps-registered_in pool group id) λ here.
        Keeps-if here _ _ (Keeps-pure (some pool)) (Keeps-find_registered_pool pools group id)

  Keeps-get_task_status : (task : Text) → Keeps w P (get_task_status task)
  unfolding get_task_status
  Keeps-get_task_status task = search reply_rules

  Keeps-task_holds : (task : Option Text) (id : Text) → Keeps w P (task_holds task id)
  unfolding task_holds
  Keeps-task_holds none id = search reply_rules
  Keeps-task_holds (some task) id = search (reply_rules, Keeps-get_task_status)

  Keeps-any_holds : (tasks : List (Option Text)) (id : Text) → Keeps w P (any_holds tasks id)
  unfolding any_holds
  Keeps-any_holds [] id = search reply_rules
  Keeps-any_holds (task ∷ tasks) id =
      Keeps-bind _ _ (Keeps-task_holds task id)
        λ busy. Keeps-if busy _ _ (Keeps-pure true) (Keeps-any_holds tasks id)

  Keeps-recent_tasks : (pool group id : Text) → Keeps w P (recent_tasks pool group id)
  unfolding recent_tasks
  Keeps-recent_tasks pool group id = search (reply_rules, Keeps-get_worker)

  pub Keeps-is_currently_busy : (pool group id : Text) → Keeps w P (is_currently_busy pool group id)
  unfolding is_currently_busy
  Keeps-is_currently_busy pool group id = search (reply_rules, Keeps-recent_tasks, Keeps-any_holds)

  pub Keeps-quarantine :
      (pool group id until info : Text) → Keeps w P (quarantine pool group id until info)
  unfolding quarantine
  Keeps-quarantine pool group id until info = search reply_rules

  pub Keeps-unquarantine : (pool group id : Text) → Keeps w P (unquarantine pool group id)
  unfolding unquarantine
  Keeps-unquarantine pool group id = Keeps-quarantine pool group id _ _

  -- A request keeps what one exchange of it keeps.
  Keeps-send : (q : Request) → Keeps w P (http_call q) → Keeps w P (send q)
  unfolding send
  Keeps-send q once = search reply_rules

  Keeps-request_loop :
      (left attempt : ℕ) (q : Request)
      → Keeps w P (http_call q)
      → Keeps w P (request_loop left attempt q)
  unfolding request_loop
  Keeps-request_loop zero attempt q once = search reply_rules
  Keeps-request_loop (suc left) attempt q once = Keeps-bind _ _ (Keeps-send q once) λ r.
      Keeps-if _ _ _
        (Keeps-bind _ _ (Keeps-when _ _ (Keeps-sleep st _))
          (λ u. Keeps-request_loop left (suc attempt) q once))
        (Keeps-raise_for_status r)

  pub Keeps-request : (q : Request) → Keeps w P (http_call q) → Keeps w P (request q)
  unfolding request
  Keeps-request q once = Keeps-request_loop 6 0 q once

  Keeps-request_harmless : (q : Request) → is_harmless_request q ≡ true → Keeps w P (request q)
  Keeps-request_harmless q harmless = Keeps-request q (Keeps-http_call st q harmless)

  pub Keeps-find_device_by_name : (name : Text) → Keeps w P (find_device_by_name name)
  unfolding find_device_by_name
  Keeps-find_device_by_name name = search (reply_rules, Keeps-request_harmless)

  pub Keeps-find_device_by_serial : (serial : Text) → Keeps w P (find_device_by_serial serial)
  unfolding find_device_by_serial
  Keeps-find_device_by_serial serial = search (reply_rules, Keeps-request_harmless)

  pub Keeps-get_device : (id : ℕ) → Keeps w P (get_device id)
  unfolding get_device
  Keeps-get_device id = search (reply_rules, Keeps-request_harmless)

  pub Keeps-get_assignment_group : (id : ℕ) → Keeps w P (get_assignment_group id)
  unfolding get_assignment_group
  Keeps-get_assignment_group id = search (reply_rules, Keeps-request_harmless)

  pub Keeps-assignment_group_device_ids : (id : ℕ) → Keeps w P (assignment_group_device_ids id)
  unfolding assignment_group_device_ids
  Keeps-assignment_group_device_ids id = search (reply_rules, Keeps-get_assignment_group)

  pub Keeps-add_device : (g d : ℕ) → Keeps w P (add_device_to_assignment_group g d)
  unfolding add_device_to_assignment_group
  Keeps-add_device g d = search (reply_rules, Keeps-request_harmless)

  pub Keeps-push_apps : (g : ℕ) → Keeps w P (push_apps g)
  unfolding push_apps
  Keeps-push_apps g = search (reply_rules, Keeps-request_harmless)

  pub Keeps-run : (host : Text) (c : Command) (check : Bool) → Keeps w P (run host c check)
  unfolding run
  Keeps-run host c check = search reply_rules

  pub Keeps-file_exists : (host path : Text) → Keeps w P (file_exists host path)
  unfolding file_exists
  Keeps-file_exists host path = search (reply_rules, Keeps-run)

  pub Keeps-write_file_as_root :
      (host path mode : Text) → Keeps w P (write_file_as_root host path mode)
  unfolding write_file_as_root
  Keeps-write_file_as_root host path mode = search (reply_rules, Keeps-run)

  pub Keeps-secure_token_status : (host : Text) → Keeps w P (secure_token_status host)
  unfolding secure_token_status
  Keeps-secure_token_status host = search (reply_rules, Keeps-run)

  pub Keeps-platform_serial : (host : Text) → Keeps w P (platform_serial host)
  unfolding platform_serial
  Keeps-platform_serial host = search (reply_rules, Keeps-run)

  pub Keeps-sshd_round : (host : Text) (u : Unit {0}) → Keeps w P (sshd_round host u)
  unfolding sshd_round
  Keeps-sshd_round host u = search reply_rules

  pub Keeps-wait_for_sshd : (host : Text) (timeout : ℕ) → Keeps w P (wait_for_sshd host timeout)
  unfolding wait_for_sshd
  Keeps-wait_for_sshd host timeout = search (reply_rules, Keeps-sshd_round)

  pub Keeps-password_login : (host : Text) → Keeps w P (password_login host)
  unfolding password_login
  Keeps-password_login host = search reply_rules

pub ruleset clients_keep = (
  keeps_rules, Keeps-find_registered_pool, Keeps-is_currently_busy, Keeps-quarantine,
  Keeps-unquarantine, Keeps-find_device_by_name, Keeps-find_device_by_serial, Keeps-get_device,
  Keeps-get_assignment_group, Keeps-assignment_group_device_ids, Keeps-add_device, Keeps-push_apps,
  Keeps-run, Keeps-file_exists, Keeps-write_file_as_root, Keeps-secure_token_status,
  Keeps-platform_serial, Keeps-wait_for_sshd, Keeps-password_login,
)
