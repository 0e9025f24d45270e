-- ===== src/Runner/Serving.antt =====
-- The runs of `_serve`: how many jobs are active, that none is taken after SIGTERM, and that it
-- returns when all jobs are done.
use relops_bootstrap.Prelude.{
  ℕ, zero, suc, ◌+◌, ◌≤◌, ◌≡◌, refl, Bool, List, [], ◌∷◌, ◌++◌, length, arith,
}
use relops_bootstrap.Runner.Calls.{Job}
use relops_bootstrap.Runner.Serve.{
  Future, Point, reaping, filling, claiming, pausing, draining, returned, crashed, Claim, got,
  nothing, failed, broken, Server, reap, advance_at, advance, claims, idle_server, on_sigterm,
  end_job, ending, job_ended,
}

-- A run from `s`, with the jobs that were claimed in it and those that ended, the latest first. The
-- moves of the loop, of the job threads and of the signal come in any order.
pub data Run (most : ℕ) (s : Server) : List Job → List Job → Server → Type 0 where
  here : Run most s [] [] s
  moved :
      {cs es : List Job} {t : Server} (answer : Claim)
      → Run most s cs es t
      → Run most s (claims answer t.point ++ cs) es (advance most answer t)
  stopped : {cs es : List Job} {t : Server} → Run most s cs es t → Run most s cs es (on_sigterm t)
  ended :
      {cs es : List Job} {t : Server} (i : ℕ)
      → Run most s cs es t
      → Run most s cs (ending i t.active ++ es) (job_ended i t)

pub length-reap : (fs : List Future) → length (reap fs) ≤ length fs
unfolding reap
length-reap [] = omega arith
length-reap (f ∷ fs) = ground (arith, length-reap fs)

length-end_job : (i : ℕ) (fs : List Future) → length (end_job i fs) ≡ length fs
unfolding end_job
length-end_job i [] = refl
length-end_job zero (f ∷ fs) = refl
length-end_job (suc i) (f ∷ fs) = omega (arith, length-end_job i fs)

-- Where a claim is awaited, there is room for its job.
abbrev pub room : Point → ℕ
room claiming = 1
room _ = 0

Fits-advance_at :
    (most : ℕ) (answer : Claim) (fs : List Future) (stop : Bool) (p : Point)
    → length fs + room p ≤ most
    → let t = advance_at most answer fs stop p in length t.active + room t.point ≤ most
unfolding advance_at
Fits-advance_at most answer fs stop reaping h = ground (arith, length-reap fs)
Fits-advance_at most answer fs stop filling h = ground arith
Fits-advance_at most (got job) fs stop claiming h = omega arith
Fits-advance_at most nothing fs stop claiming h = omega arith
Fits-advance_at most failed fs stop claiming h = omega arith
Fits-advance_at most broken fs stop claiming h = omega arith
Fits-advance_at most answer fs stop pausing h = omega arith
Fits-advance_at most answer fs stop draining h = omega arith
Fits-advance_at most answer fs stop returned h = omega arith
Fits-advance_at most answer fs stop crashed h = omega arith

Fits-Run :
    {most : ℕ} {s t : Server} {cs es : List Job}
    → length s.active + room s.point ≤ most
    → Run most s cs es t
    → length t.active + room t.point ≤ most
unfolding advance on_sigterm job_ended
Fits-Run h here = h
Fits-Run {most} h (moved {t} answer r) =
    Fits-advance_at most answer t.active t.stop t.point (Fits-Run h r)
Fits-Run h (stopped r) = Fits-Run h r
Fits-Run h (ended {t} i r) = omega (arith, length-end_job i t.active, Fits-Run h r)

-- Whatever claims answer, jobs end and signals come, and in whatever order: `_serve` never has more
-- than `max_concurrent` jobs active.
pub serve-active :
    (most : ℕ) {t : Server} {cs es : List Job}
    → Run most idle_server cs es t
    → length t.active ≤ most
unfolding idle_server
serve-active most r = omega (arith, Fits-Run (omega arith) r)
