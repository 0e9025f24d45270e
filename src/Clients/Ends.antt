-- ===== src/Clients/Ends.antt =====
-- The clients' operations end, in a world whose clock goes on.
use relops_bootstrap.Prelude.{
  ℕ, zero, suc, ◌≢◌, arith, Bool, true, Option, none, some, List, [], ◌∷◌, Text,
}
use relops_bootstrap.Effects.{
  IsClock, out_of_fuel, World, Request, SshReply, exited, timed_out, no_identity, Command, Failure,
  tc_rest, Body, devices, device, Response,
}
use relops_bootstrap.Effects.Ends.{
  Ends, Time-IsStable, Ends-raise, Ends-bind, Ends-if, Ends-pure, Ends-when, Ends-sleep,
  Ends-http_call, ends_rules, Ends-poll_for,
}
use relops_bootstrap.Clients.Keeps.{Keeps-sshd_round}
use relops_bootstrap.Clients.Taskcluster.{
  split_pool, get_worker, registered_in, find_registered_pool, get_task_status, skip_unread,
  task_holds, any_holds, recent_tasks, is_currently_busy, quarantine, unquarantine,
}
use relops_bootstrap.Clients.SimpleMdm.{
  of_http, raise_for_status, send, request_loop, request, as_devices, as_device, as_group,
  find_device_by_name, find_device_by_serial, get_device, get_assignment_group,
  assignment_group_device_ids, add_device_to_assignment_group, push_apps,
}
use relops_bootstrap.Clients.Ssh.{
  check_reply, run, file_exists, write_file_as_root, secure_token_status, platform_serial,
  sshd_round, reached, wait_for_sshd, login_result, password_login,
}

module _ {w : World} where
  Ends-split_pool : (pool : Text) → Ends w (split_pool pool)
  unfolding split_pool
  Ends-split_pool pool = search ends_rules

  Ends-skip_unread : (e : Failure) → e ≢ out_of_fuel → Ends w (skip_unread e)
  unfolding skip_unread
  Ends-skip_unread (tc_rest code) ne = search ends_rules
  Ends-skip_unread _ ne = Ends-raise _ ne

  Ends-check_reply : (r : SshReply) (check : Bool) → Ends w (check_reply r check)
  unfolding check_reply
  Ends-check_reply timed_out check = search ends_rules
  Ends-check_reply no_identity check = search ends_rules
  Ends-check_reply (exited code out error) check = search ends_rules

  Ends-reached : (o : Option (Unit {0})) → Ends w (reached o)
  unfolding reached
  Ends-reached none = search ends_rules
  Ends-reached (some u) = search ends_rules

  Ends-login_result : (o : Option ℕ) → Ends w (login_result o)
  unfolding login_result
  Ends-login_result none = search ends_rules
  Ends-login_result (some code) = search ends_rules

  Ends-of_http : (o : Option Response) → Ends w (of_http o)
  unfolding of_http
  Ends-of_http none = search ends_rules
  Ends-of_http (some r) = search ends_rules

  Ends-raise_for_status : (r : Response) → Ends w (raise_for_status r)
  unfolding raise_for_status
  Ends-raise_for_status r = search ends_rules

  Ends-as_devices : (b : Body) → Ends w (as_devices b)
  unfolding as_devices
  Ends-as_devices (devices ds) = search ends_rules
  Ends-as_devices _ = search ends_rules

  Ends-as_device : (b : Body) → Ends w (as_device b)
  unfolding as_device
  Ends-as_device (device d) = search ends_rules
  Ends-as_device _ = search ends_rules

  Ends-as_group : (b : Body) → Ends w (as_group b)
  unfolding as_group
  Ends-as_group (Body.group g) = search ends_rules
  Ends-as_group _ = search ends_rules

ruleset reply_rules = (
  ends_rules, Ends-split_pool, Ends-skip_unread, Ends-check_reply, Ends-reached, Ends-login_result,
  Ends-of_http, Ends-raise_for_status, Ends-as_devices, Ends-as_device, Ends-as_group,
)

module _ {w : World} (clock : IsClock w) where
  Ends-get_worker : (pool group id : Text) → Ends w (get_worker pool group id)
  unfolding get_worker
  Ends-get_worker pool group id = search reply_rules

  Ends-registered_in : (pool group id : Text) → Ends w (registered_in pool group id)
  unfolding registered_in
  Ends-registered_in pool group id = search (reply_rules, Ends-get_worker)

  pub Ends-find_registered_pool :
      (pools : List Text) (group id : Text) → Ends w (find_registered_pool pools group id)
  unfolding find_registered_pool
  Ends-find_registered_pool [] group id = search reply_rules
  Ends-find_registered_pool (pool ∷ pools) group id =
      Ends-bind _ _ (Ends-registered_in pool group id)
        λ here. Ends-if here _ _ (Ends-pure (some pool)) (Ends-find_registered_pool pools group id)

  Ends-get_task_status : (task : Text) → Ends w (get_task_status task)
  unfolding get_task_status
  Ends-get_task_status task = search reply_rules

  Ends-task_holds : (task : Option Text) (id : Text) → Ends w (task_holds task id)
  unfolding task_holds
  Ends-task_holds none id = search reply_rules
  Ends-task_holds (some task) id = search (reply_rules, Ends-get_task_status)

  Ends-any_holds : (tasks : List (Option Text)) (id : Text) → Ends w (any_holds tasks id)
  unfolding any_holds
  Ends-any_holds [] id = search reply_rules
  Ends-any_holds (task ∷ tasks) id =
      Ends-bind _ _ (Ends-task_holds task id)
        λ busy. Ends-if busy _ _ (Ends-pure true) (Ends-any_holds tasks id)

  Ends-recent_tasks : (pool group id : Text) → Ends w (recent_tasks pool group id)
  unfolding recent_tasks
  Ends-recent_tasks pool group id = search (reply_rules, Ends-get_worker)

  pub Ends-is_currently_busy : (pool group id : Text) → Ends w (is_currently_busy pool group id)
  unfolding is_currently_busy
  Ends-is_currently_busy pool group id = search (reply_rules, Ends-recent_tasks, Ends-any_holds)

  pub Ends-quarantine :
      (pool group id until info : Text) → Ends w (quarantine pool group id until info)
  unfolding quarantine
  Ends-quarantine pool group id until info = search reply_rules

  pub Ends-unquarantine : (pool group id : Text) → Ends w (unquarantine pool group id)
  unfolding unquarantine
  Ends-unquarantine pool group id = Ends-quarantine pool group id _ _

  -- A request keeps what one exchange of it keeps.
  Ends-send : (q : Request) → Ends w (send q)
  unfolding send
  Ends-send q = search reply_rules

  Ends-request_loop : (left attempt : ℕ) (q : Request) → Ends w (request_loop left attempt q)
  unfolding request_loop
  Ends-request_loop zero attempt q = search reply_rules
  Ends-request_loop (suc left) attempt q = Ends-bind _ _ (Ends-send q) λ r.
      Ends-if _ _ _
        (Ends-bind _ _ (Ends-when _ _ (Ends-sleep _)) (λ u. Ends-request_loop left (suc attempt) q))
        (Ends-raise_for_status r)

  pub Ends-request : (q : Request) → Ends w (request q)
  unfolding request
  Ends-request q = Ends-request_loop 6 0 q

  pub Ends-find_device_by_name : (name : Text) → Ends w (find_device_by_name name)
  unfolding find_device_by_name
  Ends-find_device_by_name name = search (reply_rules, Ends-request)

  pub Ends-find_device_by_serial : (serial : Text) → Ends w (find_device_by_serial serial)
  unfolding find_device_by_serial
  Ends-find_device_by_serial serial = search (reply_rules, Ends-request)

  pub Ends-get_device : (id : ℕ) → Ends w (get_device id)
  unfolding get_device
  Ends-get_device id = search (reply_rules, Ends-request)

  pub Ends-get_assignment_group : (id : ℕ) → Ends w (get_assignment_group id)
  unfolding get_assignment_group
  Ends-get_assignment_group id = search (reply_rules, Ends-request)

  pub Ends-assignment_group_device_ids : (id : ℕ) → Ends w (assignment_group_device_ids id)
  unfolding assignment_group_device_ids
  Ends-assignment_group_device_ids id = search (reply_rules, Ends-get_assignment_group)

  pub Ends-add_device : (g d : ℕ) → Ends w (add_device_to_assignment_group g d)
  unfolding add_device_to_assignment_group
  Ends-add_device g d = search (reply_rules, Ends-request)

  pub Ends-push_apps : (g : ℕ) → Ends w (push_apps g)
  unfolding push_apps
  Ends-push_apps g = search (reply_rules, Ends-request)

  pub Ends-run : (host : Text) (c : Command) (check : Bool) → Ends w (run host c check)
  unfolding run
  Ends-run host c check = search reply_rules

  pub Ends-file_exists : (host path : Text) → Ends w (file_exists host path)
  unfolding file_exists
  Ends-file_exists host path = search (reply_rules, Ends-run)

  pub Ends-write_file_as_root : (host path mode : Text) → Ends w (write_file_as_root host path mode)
  unfolding write_file_as_root
  Ends-write_file_as_root host path mode = search (reply_rules, Ends-run)

  pub Ends-secure_token_status : (host : Text) → Ends w (secure_token_status host)
  unfolding secure_token_status
  Ends-secure_token_status host = search (reply_rules, Ends-run)

  pub Ends-platform_serial : (host : Text) → Ends w (platform_serial host)
  unfolding platform_serial
  Ends-platform_serial host = search (reply_rules, Ends-run)

  Ends-sshd_round : (host : Text) (u : Unit {0}) → Ends w (sshd_round host u)
  unfolding sshd_round
  Ends-sshd_round host u = search reply_rules

  pub Ends-wait_for_sshd : (host : Text) (timeout : ℕ) → Ends w (wait_for_sshd host timeout)
  unfolding wait_for_sshd
  Ends-wait_for_sshd host timeout =
      Ends-bind _ _
        (Ends-poll_for clock (sshd_round host) timeout 15 tt (omega arith) (Ends-sshd_round host)
          (λ u t. Keeps-sshd_round (Time-IsStable clock t) host u))
        (λ o. Ends-reached o)

  pub Ends-password_login : (host : Text) → Ends w (password_login host)
  unfolding password_login
  Ends-password_login host = search reply_rules

pub ruleset clients_end = (
  ends_rules, Ends-find_registered_pool, Ends-is_currently_busy, Ends-quarantine, Ends-unquarantine,
  Ends-find_device_by_name, Ends-find_device_by_serial, Ends-get_device, Ends-get_assignment_group,
  Ends-assignment_group_device_ids, Ends-add_device, Ends-push_apps, Ends-run, Ends-file_exists,
  Ends-write_file_as_root, Ends-secure_token_status, Ends-platform_serial, Ends-wait_for_sshd,
  Ends-password_login,
)
