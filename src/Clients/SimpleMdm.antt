-- ===== src/Clients/SimpleMdm.antt =====
-- clients/simplemdm.py: the requests with their retries, the device and group lookups, the guarded
-- writes. `Retry-After` is a whole number of seconds where it parses.
pub mod Retry
pub mod Pages
pub mod Answers
pub mod Gathering
use relops_bootstrap.Prelude.{
  ℕ, zero, suc, ◌*◌, ◌-◌, not, ◌^◌, ◌≤◌, Bool, true, false, ◌&&◌, ◌||◌, Option, none, some, List,
  [], ◌∷◌, Text, codes, text_eq, max, leb, ltb, ◌==◌, if◌then◌else◌,
}
use relops_bootstrap.Effects.{
  Exec, pure, raise, ask, when, of_secret, done, ◌>>=◌, ◌>>◌, sleep, http_call, Request,
  search_devices, get_device as device_request, get_group as group_request, add_device,
  push_apps as push_request, wipe as wipe_request, Response, Body, devices, device, group,
  other_body, Device, Group, transport, http_status, reprovision_error, runtime_error,
  simplemdm_unavailable, protected_group, bad_reply,
}

-- `_RETRY_STATUSES`
unfoldable pub is_retry_status : ℕ → Bool
is_retry_status code = code == 429 || code == 500 || code == 502 || code == 503 || code == 504

abbrev pub max_attempts : ℕ
max_attempts = 6

abbrev pub backoff_base_seconds : ℕ
backoff_base_seconds = 2

-- What is slept after the attempt.
unfoldable pub delay : ℕ → Option ℕ → ℕ
delay attempt none = backoff_base_seconds * 2 ^ attempt
delay attempt (some retry_after) = max (backoff_base_seconds * 2 ^ attempt) retry_after

unfoldable pub of_http : Option Response → Exec Response
of_http none = raise transport
of_http (some r) = pure r

-- `httpx.Response.raise_for_status`
unfoldable pub raise_for_status : Response → Exec Response
raise_for_status r =
    if leb 200 r.status_code && ltb r.status_code 300
    then pure r
    else raise (http_status r.status_code)

unfoldable pub send : Request → Exec Response
unfolding of_http
send q = do
  secret ← ask (λ w. w.api_key)
  key ← of_secret secret
  reply ← http_call q
  of_http reply

-- The loop over the attempts: how many are left, and the number of the next.
unfoldable pub request_loop : ℕ → ℕ → Request → Exec Response
request_loop zero attempt q = raise (reprovision_error simplemdm_unavailable)
request_loop (suc left) attempt q = do
  r ← send q
  if is_retry_status r.status_code
      then (do
        when (not (attempt == max_attempts - 1)) (sleep (delay attempt r.retry_after))
        request_loop left (suc attempt) q)
      else raise_for_status r

-- `_request`
unfoldable pub request : Request → Exec Response
request q = request_loop max_attempts 0 q

-- `.json().get("data", [])` as the list of device records that a search gives.
unfoldable pub as_devices : Body → Exec (List Device)
as_devices (devices ds) = pure ds
as_devices other_body = pure []
as_devices _ = raise (runtime_error bad_reply)

unfoldable pub field_is : Option Text → Text → Bool
field_is none v = false
field_is (some u) v = text_eq u v

-- The first device whose field has the value.
unfoldable pub first_device : (Device → Option Text) → Text → List Device → Option Device
unfolding field_is
first_device field v [] = none
first_device field v (d ∷ ds) = if field_is (field d) v then some d else first_device field v ds

unfoldable pub find_device_by_name : Text → Exec (Option Device)
unfolding as_devices
find_device_by_name name = do
  r ← request (search_devices name)
  ds ← as_devices r.body
  pure (first_device (λ d. d.name) name ds)

unfoldable pub find_device_by_serial : Text → Exec (Option Device)
unfolding as_devices
find_device_by_serial serial = do
  r ← request (search_devices serial)
  ds ← as_devices r.body
  pure (first_device (λ d. d.serial_number) serial ds)

-- `.json()["data"]`
unfoldable pub as_device : Body → Exec Device
as_device (device d) = pure d
as_device _ = raise (runtime_error bad_reply)

unfoldable pub get_device : ℕ → Exec Device
unfolding as_device
get_device id = do r ← request (device_request id); as_device r.body

unfoldable pub as_group : Body → Exec Group
as_group (group g) = pure g
as_group _ = raise (runtime_error bad_reply)

unfoldable pub get_assignment_group : ℕ → Exec Group
unfolding as_group
get_assignment_group id = do r ← request (group_request id); as_group r.body

unfoldable pub assignment_group_device_ids : ℕ → Exec (List ℕ)
assignment_group_device_ids id = do g ← get_assignment_group id; pure g.devices

-- `PROTECTED_GROUP_IDS`
unfoldable pub is_protected : ℕ → Bool
is_protected id = id == 2017918

unfoldable pub add_device_to_assignment_group : ℕ → ℕ → Exec (Unit {0})
add_device_to_assignment_group group_id device_id =
    if is_protected group_id
    then raise (reprovision_error protected_group)
    else (do r ← request (add_device group_id device_id); done)

unfoldable pub push_apps : ℕ → Exec (Unit {0})
push_apps group_id =
    if is_protected group_id
    then raise (reprovision_error protected_group)
    else (do r ← request (push_request group_id); done)

-- The caller's `obliteration_behavior` is always the default.
unfoldable pub wipe : ℕ → Exec (Unit {0})
wipe device_id = do r ← request (wipe_request device_id (codes "DoNotObliterate")); done
