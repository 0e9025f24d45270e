-- ===== src/Runner/Serve.antt =====
-- `_serve` as a machine: its own moves, from line to line, and those of its surroundings.
use relops_bootstrap.Prelude.{
  ℕ, zero, suc, Bool, true, false, ◌&&◌, not, List, [], ◌∷◌, length, ltb, if◌then◌else◌,
}
use relops_bootstrap.Runner.Calls.{Job}

-- A submitted job, and whether it is done.
pub record Future : Type 0 where
  pub job : Job
  pub is_done : Bool

-- Where the loop is: before the reaping; before the test of the inner loop; before a claim's answer;
-- in `stop.wait`; in `futures_wait`; after the return; after another exception.
pub data Point : Type 0 where
  reaping filling claiming pausing draining returned crashed : Point

-- What `_claim` gives: a job, an empty queue, an `httpx.HTTPError`, any other exception.
pub data Claim : Type 0 where
  got : Job → Claim
  nothing failed broken : Claim

pub record Server : Type 0 where
  pub active : List Future
  pub stop : Bool
  pub point : Point

-- `{f for f in active if not f.done()}`
unfoldable pub reap : List Future → List Future
reap [] = []
reap (f ∷ fs) = let rest = reap fs in if f.is_done then rest else f ∷ rest

unfoldable pub is_idle : List Future → Bool
is_idle [] = true
is_idle (f ∷ fs) = false

-- The loop's next move, with `answer` if it waits for a claim. At most `most` jobs are active.
unfoldable pub advance_at : ℕ → Claim → List Future → Bool → Point → Server
unfolding reap is_idle
advance_at most answer active stop reaping =
    let live = reap active in
    record {
      active = live;
      stop = stop;
      point = if stop then (if is_idle live then returned else draining) else filling;
    }
advance_at most answer active stop filling = record {
  active = active;
  stop = stop;
  point = if ltb (length active) most && not stop then claiming else pausing;
}
advance_at most (got job) active stop claiming = record {
  active = record { job = job; is_done = false } ∷ active;
  stop = stop;
  point = filling;
}
advance_at most broken active stop claiming = record {
  active = active;
  stop = stop;
  point = crashed;
}
advance_at most _ active stop claiming = record { active = active; stop = stop; point = pausing }
advance_at most answer active stop returned = record {
  active = active;
  stop = stop;
  point = returned;
}
advance_at most answer active stop crashed = record {
  active = active;
  stop = stop;
  point = crashed;
}
advance_at most answer active stop _ = record { active = active; stop = stop; point = reaping }

unfoldable pub advance : ℕ → Claim → Server → Server
unfolding advance_at
advance most answer s = advance_at most answer s.active s.stop s.point

-- The jobs that the move claims.
unfoldable pub claims : Claim → Point → List Job
claims (got job) claiming = job ∷ []
claims _ _ = []

-- `active = set()`
unfoldable pub idle_server : Server
idle_server = record { active = []; stop = false; point = reaping }

-- SIGTERM: `stop.set()`
unfoldable pub on_sigterm : Server → Server
on_sigterm s = record { active = s.active; stop = true; point = s.point }

-- The end of the job at that place of `active`.
unfoldable pub end_job : ℕ → List Future → List Future
end_job i [] = []
end_job zero (f ∷ fs) = record { job = f.job; is_done = true } ∷ fs
end_job (suc i) (f ∷ fs) = f ∷ end_job i fs

-- The job at that place, if it was still going.
unfoldable pub ending : ℕ → List Future → List Job
ending i [] = []
ending zero (f ∷ fs) = if f.is_done then [] else f.job ∷ []
ending (suc i) (f ∷ fs) = ending i fs

unfoldable pub job_ended : ℕ → Server → Server
unfolding end_job
job_ended i s = record { active = end_job i s.active; stop = s.stop; point = s.point }
