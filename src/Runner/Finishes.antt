-- ===== src/Runner/Finishes.antt =====
-- `_serve` returns when the jobs are done, and not before.
use relops_bootstrap.Prelude.{
  ℕ, zero, suc, ◌+◌, ◌≡◌, ◌≢◌, refl, ap, subst, Bool, true, false, ◌&&◌, not, List, [], ◌∷◌, ◌++◌,
  length, ltb, if◌then◌else◌, arith,
}
use relops_bootstrap.Runner.Calls.{Job}
use relops_bootstrap.Runner.Serve.{
  Future, Point, reaping, filling, claiming, pausing, draining, returned, crashed, Claim, got,
  nothing, failed, broken, Server, reap, is_idle, advance_at, advance, claims, idle_server,
  on_sigterm, end_job, ending, job_ended,
}
use relops_bootstrap.Runner.Serving.{Run, here, moved, stopped, ended}

-- The jobs that are still going, and how many of a list pass a test.
abbrev pub going : List Future → List Job
going [] = []
going (f ∷ fs) = let rest = going fs in if f.is_done then rest else f.job ∷ rest

abbrev pub count : (Job → Bool) → List Job → ℕ
count p [] = 0
count p (j ∷ js) = (if p j then 1 else 0) + count p js

count-append : (p : Job → Bool) (js ks : List Job) → count p (js ++ ks) ≡ count p js + count p ks
count-append p [] ks = omega arith
count-append p (j ∷ js) ks = omega (arith, count-append p js ks)

count-reap : (p : Job → Bool) (fs : List Future) → count p (going (reap fs)) ≡ count p (going fs)
unfolding reap
count-reap p [] = refl
count-reap p (f ∷ fs) = ground (arith, count-reap p fs)

count-end_job :
    (p : Job → Bool) (i : ℕ) (fs : List Future)
    → count p (ending i fs) + count p (going (end_job i fs)) ≡ count p (going fs)
unfolding ending end_job
count-end_job p i [] = refl
count-end_job p zero (f ∷ fs) = ground arith
count-end_job p (suc i) (f ∷ fs) = ground (arith, count-end_job p i fs)

-- A move of the loop adds to the jobs that are going those that it claims.
count-advance_at :
    (p : Job → Bool) (most : ℕ) (answer : Claim) (fs : List Future) (stop : Bool) (at : Point)
    → count p (going (advance_at most answer fs stop at).active)
      ≡ count p (claims answer at) + count p (going fs)
unfolding advance_at claims
count-advance_at p most answer fs stop reaping = ground (arith, count-reap p fs)
count-advance_at p most answer fs stop filling = ground arith
count-advance_at p most (got job) fs stop claiming = omega arith
count-advance_at p most nothing fs stop claiming = omega arith
count-advance_at p most failed fs stop claiming = omega arith
count-advance_at p most broken fs stop claiming = omega arith
count-advance_at p most answer fs stop pausing = ground arith
count-advance_at p most answer fs stop draining = ground arith
count-advance_at p most answer fs stop returned = ground arith
count-advance_at p most answer fs stop crashed = ground arith

count-Run :
    {most : ℕ} {s t : Server} {cs es : List Job} (p : Job → Bool)
    → Run most s cs es t
    → count p cs + count p (going s.active) ≡ count p es + count p (going t.active)
unfolding advance on_sigterm job_ended
count-Run p here = refl
count-Run {most} p (moved {cs} {t} answer r) = omega (
  arith,
  count-append p (claims answer t.point) cs,
  count-Run p r,
  count-advance_at p most answer t.active t.stop t.point,
)
count-Run p (stopped r) = count-Run p r
count-Run p (ended {es} {t} i r) =
    omega (arith, count-append p (ending i t.active) es, count-Run p r, count-end_job p i t.active)

-- Where the loop has returned, `active` is empty.
abbrev IsEmptied : List Future → Point → Type 0
IsEmptied fs returned = fs ≡ []
IsEmptied fs _ = Unit

emptied :
    (fs : List Future) (stop : Bool)
    → IsEmptied fs (if stop then (if is_idle fs then returned else draining) else filling)
unfolding is_idle
emptied fs false = tt
emptied [] true = refl
emptied (f ∷ fs) true = tt

IsEmptied-if : (fs : List Future) (b : Bool) → IsEmptied fs (if b then claiming else pausing)
IsEmptied-if fs true = tt
IsEmptied-if fs false = tt

IsEmptied-advance_at :
    (most : ℕ) (answer : Claim) (fs : List Future) (stop : Bool) (at : Point)
    → IsEmptied fs at
    → let t = advance_at most answer fs stop at in IsEmptied t.active t.point
unfolding advance_at
IsEmptied-advance_at most answer fs stop reaping h = emptied (reap fs) stop
IsEmptied-advance_at most answer fs stop filling h =
    IsEmptied-if fs (ltb (length fs) most && not stop)
IsEmptied-advance_at most (got job) fs stop claiming h = tt
IsEmptied-advance_at most nothing fs stop claiming h = tt
IsEmptied-advance_at most failed fs stop claiming h = tt
IsEmptied-advance_at most broken fs stop claiming h = tt
IsEmptied-advance_at most answer fs stop pausing h = tt
IsEmptied-advance_at most answer fs stop draining h = tt
IsEmptied-advance_at most answer fs stop returned h = h
IsEmptied-advance_at most answer fs stop crashed h = tt

IsEmptied-end_job :
    (i : ℕ) (fs : List Future) (at : Point) → IsEmptied fs at → IsEmptied (end_job i fs) at
unfolding end_job
IsEmptied-end_job i fs returned h = rw h refl
IsEmptied-end_job i fs _ h = tt

IsEmptied-Run :
    {most : ℕ} {t : Server} {cs es : List Job}
    → Run most idle_server cs es t
    → IsEmptied t.active t.point
unfolding idle_server advance on_sigterm job_ended
IsEmptied-Run here = tt
IsEmptied-Run {most} (moved {t} answer r) =
    IsEmptied-advance_at most answer t.active t.stop t.point (IsEmptied-Run r)
IsEmptied-Run (stopped r) = IsEmptied-Run r
IsEmptied-Run (ended {t} i r) = IsEmptied-end_job i t.active t.point (IsEmptied-Run r)

-- When `_serve` has returned, the jobs that ended are the jobs that it claimed, as multisets: for
-- each test, as many of the ones as of the others pass it.
pub serve-count :
    {most : ℕ} {t : Server} {cs es : List Job} (p : Job → Bool)
    → Run most idle_server cs es t
    → t.point ≡ returned
    → count p cs ≡ count p es
unfolding idle_server
serve-count {t} p r e =
    let none_left : t.active ≡ [] = subst (IsEmptied t.active) e (IsEmptied-Run r) in
    let balance = count-Run p r in
    let zero_left : count p (going t.active) ≡ 0 = ap (λ fs. count p (going fs)) none_left in
    omega arith

reap-going : (fs : List Future) → going fs ≡ [] → reap fs ≡ []
unfolding reap
reap-going [] e = refl
reap-going (f ∷ fs) e = ground (arith, reap-going fs)

to_pausing : (b : Bool) → (if b && not true then claiming else pausing) ≡ pausing
to_pausing true = refl
to_pausing false = refl

returned-advance_at :
    (most : ℕ) (a b c : Claim) (fs : List Future) (at : Point)
    → reap fs ≡ []
    → at ≢ claiming
    → at ≢ crashed
    → (advance most a (advance most b (advance_at most c fs true at))).point ≡ returned
unfolding advance advance_at is_idle reap
returned-advance_at most a b c fs reaping quiet h h' = rw quiet refl
returned-advance_at most a b c fs filling quiet h h' =
    rw (to_pausing (ltb (length fs) most), quiet) refl
returned-advance_at most a b c fs claiming quiet h h' = absurd (h refl)
returned-advance_at most a b c fs pausing quiet h h' = rw quiet refl
returned-advance_at most a b c fs draining quiet h h' = rw quiet refl
returned-advance_at most a b c fs returned quiet h h' = refl
returned-advance_at most a b c fs crashed quiet h h' = absurd (h' refl)

-- Once the signal has come and no job is going, three moves of the loop are enough for it to return,
-- whatever its claims answer, unless it was waiting for a claim's answer or has crashed.
pub serve-returned :
    (most : ℕ) (a b c : Claim) (s : Server)
    → s.stop ≡ true
    → going s.active ≡ []
    → s.point ≢ claiming
    → s.point ≢ crashed
    → (advance most a (advance most b (advance most c s))).point ≡ returned
unfolding advance
serve-returned most a b c s e quiet h h' =
    rw e (returned-advance_at most a b c s.active s.point (reap-going s.active quiet) h h')
