-- ===== src/Runner/Drains.antt =====
-- What `_serve` claims after SIGTERM.
use relops_bootstrap.Prelude.{
  ℕ, ◌+◌, ◌≤◌, ◌≡◌, refl, Bool, true, List, length, length-append, arith,
}
use relops_bootstrap.Runner.Calls.{Job}
use relops_bootstrap.Runner.Serve.{
  Future, Point, reaping, filling, claiming, pausing, draining, returned, crashed, Claim, got,
  nothing, failed, broken, Server, advance_at, advance, claims, on_sigterm, job_ended,
}
use relops_bootstrap.Runner.Serving.{Run, here, moved, stopped, ended, room}

stop-advance_at :
    (most : ℕ) (answer : Claim) (fs : List Future) (stop : Bool) (p : Point)
    → (advance_at most answer fs stop p).stop ≡ stop
unfolding advance_at
stop-advance_at most answer fs stop reaping = refl
stop-advance_at most answer fs stop filling = refl
stop-advance_at most (got job) fs stop claiming = refl
stop-advance_at most nothing fs stop claiming = refl
stop-advance_at most failed fs stop claiming = refl
stop-advance_at most broken fs stop claiming = refl
stop-advance_at most answer fs stop pausing = refl
stop-advance_at most answer fs stop draining = refl
stop-advance_at most answer fs stop returned = refl
stop-advance_at most answer fs stop crashed = refl

-- Once the loop is to stop, it claims no more than it is waiting for.
claims-advance_at :
    (most : ℕ) (answer : Claim) (fs : List Future) (p : Point)
    → length (claims answer p) + room (advance_at most answer fs true p).point ≤ room p
unfolding advance_at claims
claims-advance_at most answer fs reaping = ground arith
claims-advance_at most answer fs filling = ground arith
claims-advance_at most (got job) fs claiming = omega arith
claims-advance_at most nothing fs claiming = omega arith
claims-advance_at most failed fs claiming = omega arith
claims-advance_at most broken fs claiming = omega arith
claims-advance_at most answer fs pausing = ground arith
claims-advance_at most answer fs draining = ground arith
claims-advance_at most answer fs returned = ground arith
claims-advance_at most answer fs crashed = ground arith

record IsStopping (claimed at_first : ℕ) (t : Server) : Type 0 where
  stops : t.stop ≡ true
  bounded : claimed + room t.point ≤ at_first

Run-IsStopping :
    {most : ℕ} {s t : Server} {cs es : List Job}
    → s.stop ≡ true
    → Run most s cs es t
    → IsStopping (length cs) (room s.point) t
unfolding advance on_sigterm job_ended
Run-IsStopping e here = record { stops = e; bounded = omega arith }
Run-IsStopping {most} e (moved {cs} {t} answer r) =
    let i = Run-IsStopping e r in
    record {
      stops = ground (arith, stop-advance_at most answer t.active t.stop t.point, i.stops);
      bounded = rw i.stops (
          omega (
            arith,
            length-append (claims answer t.point) cs,
            i.bounded,
            claims-advance_at most answer t.active t.point,
          ));
    }
Run-IsStopping e (stopped r) = record { stops = refl; bounded = (Run-IsStopping e r).bounded }
Run-IsStopping e (ended i r) =
    let k = Run-IsStopping e r in record { stops = k.stops; bounded = k.bounded }

-- From any moment at which `stop` is set, whatever happens, `_serve` claims at most one more job if it
-- was then waiting for the answer to a claim, and none otherwise.
pub serve-claims :
    {most : ℕ} {s t : Server} {cs es : List Job}
    → s.stop ≡ true
    → Run most s cs es t
    → length cs ≤ room s.point
serve-claims e r = omega (arith, (Run-IsStopping e r).bounded)
