-- ===== src/Clients/Taskcluster.antt =====
-- clients/taskcluster.py: where a worker is registered, whether it is busy, and its quarantine.
pub mod Busy
pub mod Pools
use relops_bootstrap.Prelude.{
  ℕ, Bool, true, false, ◌&&◌, ◌||◌, not, Option, none, some, List, [], ◌∷◌, Text, codes, text_eq,
  is_empty, contains, take, ◌==◌, if◌then◌else◌,
}
use relops_bootstrap.Effects.{
  Exec, pure, raise, catch, done, ◌>>=◌, ◌>>◌, of_tc, worker_call, task_call, quarantine_call,
  Worker, TaskStatus, Failure, tc_rest, value_error, no_pool,
}

-- `worker_pool_id.split("/", 1)` into two.
unfoldable pub split_pool : Text → Exec (Unit {0})
split_pool pool = if contains pool (codes "/") then done else raise (value_error no_pool)

unfoldable pub get_worker : Text → Text → Text → Exec Worker
unfolding split_pool
get_worker pool group worker = do
  split_pool pool
  reply ← worker_call pool group worker
  of_tc reply

unfoldable pub is_404 : Failure → Bool
is_404 (tc_rest code) = code == 404
is_404 _ = false

-- One probe: the worker answers in this pool, or the pool gives a 404.
unfoldable pub registered_in : Text → Text → Text → Exec Bool
registered_in pool group worker =
    catch (do record { recent_tasks = tasks } ← get_worker pool group worker; pure true)
      (λ e. if is_404 e then pure false else raise e)

unfoldable pub find_registered_pool : List Text → Text → Text → Exec (Option Text)
find_registered_pool [] group worker = pure none
find_registered_pool (pool ∷ pools) group worker = do
  here ← registered_in pool group worker
  if here then pure (some pool) else find_registered_pool pools group worker

-- `TERMINAL_RUN_STATES`
unfoldable pub is_terminal : Option Text → Bool
is_terminal none = false
is_terminal (some state) =
    text_eq state (codes "completed")
    || text_eq state (codes "failed")
    || text_eq state (codes "exception")

-- `runs[-1].get("workerId") if runs else None`
unfoldable pub latest_worker : List (Option Text) → Option Text
latest_worker [] = none
latest_worker (r ∷ []) = r
latest_worker (r ∷ s ∷ runs) = latest_worker (s ∷ runs)

-- `latest_worker_id and latest_worker_id != worker_id`
unfoldable pub runs_elsewhere : Option Text → Text → Bool
runs_elsewhere none worker = false
runs_elsewhere (some id) worker = not (is_empty id) && not (text_eq id worker)

-- Whether a task with this status holds the worker.
unfoldable pub holds : TaskStatus → Text → Bool
unfolding is_terminal latest_worker runs_elsewhere
holds status worker =
    not (is_terminal status.state) && not (runs_elsewhere (latest_worker status.runs) worker)

unfoldable pub get_task_status : Text → Exec TaskStatus
get_task_status task = do reply ← task_call task; of_tc reply

-- `except TaskclusterRestFailure: continue`
unfoldable pub skip_unread : Failure → Exec Bool
skip_unread (tc_rest code) = pure false
skip_unread e = raise e

-- One turn of the loop over the recent tasks.
unfoldable pub task_holds : Option Text → Text → Exec Bool
unfolding skip_unread
task_holds none worker = pure false
task_holds (some task) worker =
    if is_empty task
    then pure false
    else catch (do status ← get_task_status task; pure (holds status worker)) skip_unread

unfoldable pub any_holds : List (Option Text) → Text → Exec Bool
any_holds [] worker = pure false
any_holds (task ∷ tasks) worker = do
  busy ← task_holds task worker
  if busy then pure true else any_holds tasks worker

-- The worker's recent tasks; a worker that Taskcluster does not know has none.
unfoldable pub recent_tasks : Text → Text → Text → Exec (List (Option Text))
recent_tasks pool group worker =
    catch (do record { recent_tasks = tasks } ← get_worker pool group worker; pure tasks)
      (λ e. if is_404 e then pure [] else raise e)

unfoldable pub is_currently_busy : Text → Text → Text → Exec Bool
unfolding recent_tasks
is_currently_busy pool group worker = do
  tasks ← recent_tasks pool group worker
  any_holds (take 5 tasks) worker

unfoldable pub quarantine : Text → Text → Text → Text → Text → Exec (Unit {0})
unfolding split_pool
quarantine pool group worker until info = do
  split_pool pool
  reply ← quarantine_call pool group worker until (if is_empty info then none else some info)
  of_tc reply

abbrev pub long_past : Text
long_past = codes "1970-01-01T00:00:00.000Z"

unfoldable pub unquarantine : Text → Text → Text → Exec (Unit {0})
unquarantine pool group worker = quarantine pool group worker long_past []
