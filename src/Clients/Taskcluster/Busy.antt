-- ===== src/Clients/Taskcluster/Busy.antt =====
-- taskcluster.py, `is_currently_busy`: what stands behind the answer that a worker is idle.
use relops_bootstrap.Prelude.{
  ℕ, ◌≡◌, refl, subst, ◌⊎◌, inl, inr, Bool, true, false, Option, none, some, List, [], ◌∷◌, Text,
  text_eq, is_empty, contains, codes, take, if◌then◌else◌, Bool-cases, arith, ◌==◌,
}
use relops_bootstrap.Effects.{
  World, History, Event, ok, Failure, tc_rest, value_error, no_pool, TcReply, answer, rest_failure,
  other_failure, Worker, TaskStatus, asked_task, asked_worker, Exec, pure, raise, call, catch,
  of_tc, task_call, worker_call, done, ◌>>=◌, ◌>>◌, handle,
}
use relops_bootstrap.Effects.Gives.{
  Post, Gives, Gives-pure, Gives-raise, Gives-if, Gives-bind, Gives-map, Post-ok,
}
use relops_bootstrap.Clients.Taskcluster.{
  split_pool, get_worker, is_404, is_terminal, latest_worker, runs_elsewhere, holds,
  get_task_status, skip_unread, task_holds, any_holds, recent_tasks, is_currently_busy,
}

-- The call was made, with this answer.
pub data Saw (e : Event) : History → Type 0 where
  here : {h : History} → Saw e (e ∷ h)
  there : (e' : Event) {h : History} → Saw e h → Saw e (e' ∷ h)

-- A task that is over, or whose latest run went to another worker.
abbrev pub LetsGo : TaskStatus → Text → Type 0
LetsGo status worker =
    (is_terminal status.state ≡ true)
    ⊎ ((id : Text) × (latest_worker status.runs ≡ some id)
        × (is_empty id ≡ false)
        × (text_eq id worker ≡ false))

runs_elsewhere-some :
    (o : Option Text) (worker : Text)
    → runs_elsewhere o worker ≡ true
    → (id : Text) × (o ≡ some id) × (is_empty id ≡ false) × (text_eq id worker ≡ false)
unfolding runs_elsewhere
runs_elsewhere-some none worker q = absurd (cc)
runs_elsewhere-some (some id) worker q = (id, refl, ground arith, ground arith)

holds-LetsGo :
    (status : TaskStatus) (worker : Text) → holds status worker ≡ false → LetsGo status worker
unfolding holds
holds-LetsGo status worker q = elim (Bool-cases (is_terminal status.state)) [
  | inl over ↦ inl over
  | inr on ↦ inr (runs_elsewhere-some (latest_worker status.runs) worker (ground arith))
]

-- The task was asked for, and its status could not be read or does not hold the worker.
abbrev pub Settles : TcReply TaskStatus → Text → Type 0
Settles (answer status) worker = LetsGo status worker
Settles (rest_failure code) worker = Unit {0}
Settles other_failure worker = ⊥

abbrev pub IsClear : Text → Option Text → History → Type 0
IsClear worker none h = Unit {0}
IsClear worker (some task) h =
    (is_empty task ≡ true)
    ⊎ ((reply : TcReply TaskStatus) × Saw (asked_task task reply) h × Settles reply worker)

abbrev pub AllClear : Text → List (Option Text) → History → Type 0
AllClear worker [] h = Unit {0}
AllClear worker (task ∷ tasks) h = IsClear worker task h × AllClear worker tasks h

-- The worker was asked for, and these are its recent tasks; a worker that is not known has none.
abbrev pub Recent : Text → Text → Text → List (Option Text) → History → Type 0
Recent pool group worker tasks h =
    Saw (asked_worker pool group worker (answer (record { recent_tasks = tasks }))) h
    ⊎ ((tasks ≡ []) × Saw (asked_worker pool group worker (rest_failure 404)) h)

abbrev pub IsMonotone : (History → Type 0) → Type 0
IsMonotone P = (e : Event) (h : History) → P h → P (e ∷ h)

IsClear-monotone : (worker : Text) (task : Option Text) → IsMonotone (IsClear worker task)
IsClear-monotone worker none e h c = c
IsClear-monotone worker (some task) e h (inl q) = inl q
IsClear-monotone worker (some task) e h (inr (reply, saw, settled)) =
    inr (reply, there e saw, settled)

Recent-monotone :
    (pool group worker : Text) (tasks : List (Option Text))
    → IsMonotone (Recent pool group worker tasks)
Recent-monotone pool group worker tasks e h (inl saw) = inl (there e saw)
Recent-monotone pool group worker tasks e h (inr (q, saw)) = inr (q, there e saw)

abbrev pub Any : History → Type 0
Any h = Unit {0}

module _ (w : World) (worker : Text) where
  module _ (P : History → Type 0) (mono : IsMonotone P) where
    abbrev Freed : Option Text → Bool → History → Type 0
    Freed task busy h = P h × (busy ≡ false → IsClear worker task h)

    settle :
        (task : Text) (reply : TcReply TaskStatus) (h : History)
        → P h
        → Saw (asked_task task reply) h
        → (let m = of_tc reply >>= λ s. pure (holds s worker) in
            Post
              (Freed (some task))
              Any
              (handle (m w h).0 skip_unread w (m w h).1).0
              (handle (m w h).0 skip_unread w (m w h).1).1)
    unfolding of_tc ◌>>=◌ pure raise skip_unread
    settle task (answer s) h p saw = (p, λ q. inr (answer s, saw, holds-LetsGo s worker q))
    settle task (rest_failure code) h p saw = (p, λ q. inr (rest_failure code, saw, tt))
    settle task other_failure h p saw = tt

    task_holds-Freed : (task : Option Text) → Gives w P (task_holds task worker) (Freed task) Any
    unfolding task_holds get_task_status task_call call catch ◌>>=◌
    task_holds-Freed none = Gives-pure false (λ h p. (p, λ q. tt))
    task_holds-Freed (some task) =
        Gives-if (is_empty task) (pure false) _ (λ e. Gives-pure false (λ h p. (p, λ q. inl e)))
          (λ _. record { at = λ h p. settle task (w.task_status h task) _ (mono _ h p) here })

  any_holds-AllClear :
      (P : History → Type 0)
      → IsMonotone P
      → (tasks : List (Option Text))
      → Gives w P
          (any_holds tasks worker)
          (λ busy h. P h × (busy ≡ false → AllClear worker tasks h))
          Any
  unfolding any_holds
  any_holds-AllClear P mono [] = Gives-pure false (λ h p. (p, λ q. tt))
  any_holds-AllClear P mono (task ∷ tasks) =
      Gives-bind (Freed P mono task) _ _ (task_holds-Freed P mono task) λ busy.
        Gives-if busy (pure true) (any_holds tasks worker)
          (λ held. Gives-pure true (λ h p. (p.0, λ q. absurd (cc))))
          (λ free.
            Gives-map (λ h p. (p.0, p.1 free)) (λ b h q. (q.0.0, λ e. (q.0.1, q.1 e)))
              (any_holds-AllClear (λ h. P h × IsClear worker task h)
                (λ e h p. (mono e h p.0, IsClear-monotone worker task e h p.1)) tasks))

pub is-404 : (code : ℕ) → (code == 404) ≡ true → code ≡ 404
is-404 code q = ground arith

module _ (w : World) (pool group worker : Text) where
  abbrev Listed : List (Option Text) → History → Type 0
  Listed tasks h = Recent pool group worker tasks h

  -- What the handler of the first call makes of its answer.
  listed :
      (reply : TcReply Worker) (h : History)
      → Saw (asked_worker pool group worker reply) h
      → (let m = of_tc reply >>= λ wk. pure wk.recent_tasks in
          let f = λ (e : Failure). if is_404 e then pure [] else raise e in
          Post Listed Any (handle (m w h).0 f w (m w h).1).0 (handle (m w h).0 f w (m w h).1).1)
  unfolding of_tc ◌>>=◌ pure raise is_404
  listed (answer wk) h saw = inl saw
  listed other_failure h saw = tt
  listed (rest_failure code) h saw =
      (Gives-if {P = Saw (asked_worker pool group worker (rest_failure code))} {R = Any}
          {Q = Listed} (code == 404) (pure []) (raise (tc_rest code))
          (λ e. Gives-pure [] (λ h s. inr (
            refl,
            subst (λ c. Saw (asked_worker pool group worker (rest_failure c)) h) (is-404 code e) s,
          )))
          (λ e. Gives-raise _ (λ h s. tt))).at
        h saw

  -- The whole, whether or not the pool's name has a slash.
  abbrev known_tasks : Bool → Exec (List (Option Text))
  known_tasks b =
      catch
        (do
          wk ← (do
            if b then done else raise (value_error no_pool)
            reply ← worker_call pool group worker
            of_tc reply)
          pure wk.recent_tasks)
        (λ e. if is_404 e then pure [] else raise e)

  known_tasks-Listed :
      (b : Bool) (h : History) → Post Listed Any (known_tasks b w h).0 (known_tasks b w h).1
  unfolding worker_call call catch ◌>>=◌ done pure raise is_404
  known_tasks-Listed true h = listed (w.get_worker h pool group worker) _ here
  known_tasks-Listed false h = tt

  recent_tasks-Listed : Gives w Any (recent_tasks pool group worker) Listed Any
  unfolding recent_tasks get_worker split_pool
  recent_tasks-Listed = record { at = λ h p. known_tasks-Listed (contains pool (codes "/")) h }

  idle-Evidence :
      Gives w Any
        (is_currently_busy pool group worker)
        (λ busy h.
          busy ≡ false
          → (tasks : List (Option Text)) × Recent pool group worker tasks h
            × AllClear worker (take 5 tasks) h)
        Any
  unfolding is_currently_busy
  idle-Evidence = Gives-bind Listed _ _ recent_tasks-Listed λ tasks.
      Gives-map (λ h p. p) (λ busy h q e. (tasks, q.0, q.1 e))
        (any_holds-AllClear w worker (Listed tasks) (Recent-monotone pool group worker tasks)
          (take 5 tasks))

-- In any world and after any history: when `is_currently_busy` answers that the worker is idle, it
-- has asked for the worker's recent tasks and got them (none from a 404), and for each of the first
-- five that has an id it has asked for the status; none of the statuses that it could read is of a
-- task that is still going and whose latest run is the worker's or nobody's.
pub is_currently_busy-evidence :
    (w : World) (pool group worker : Text) (h h' : History)
    → is_currently_busy pool group worker w h ≡ (ok false, h')
    → (tasks : List (Option Text)) × Recent pool group worker tasks h'
      × AllClear worker (take 5 tasks) h'
is_currently_busy-evidence w pool group worker h h' e =
    Post-ok Any _ false (is_currently_busy pool group worker w h) h' e
      ((idle-Evidence w pool group worker).at h tt) refl
