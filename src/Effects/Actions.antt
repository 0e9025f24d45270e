-- ===== src/Effects/Actions.antt =====
-- The monad of the steps: the history grows on failure too, since a call that was made stays made.
use relops_bootstrap.Prelude.{ℕ, Bool, true, false, Option, ◌∷◌, Text, if◌then◌else◌}
use relops_bootstrap.Effects.Calls.{
  World, History, Event, Secret, resolved, unresolved, unset, secret_unresolved, no_secret,
  runtime_error, Result, ok, err, Failure, reprovision_error, not_ready, SshReply, Command, TcReply,
  answer, rest_failure, other_failure, tc_rest, tc_other, Worker, TaskStatus, Request, Response,
  read_clock, slept, connected, forgot_key, logged_in, ssh, asked_worker, asked_task,
  set_quarantine, http,
}

abbrev pub Exec : Type 0 → Type 0
Exec A = World → History → Result A × History

module _ {A : Type 0} where
  unfoldable pub pure : A → Exec A
  pure a w h = (ok a, h)

  unfoldable pub raise : Failure → Exec A
  raise f w h = (err f, h)

  unfoldable pub lift : Result A → Exec A
  lift r w h = (r, h)

  -- What the world holds fixed: settings and secrets.
  unfoldable pub ask : (World → A) → Exec A
  ask f w h = (ok (f w), h)

  unfoldable pub of_secret : Secret A → Exec A
  unfolding pure raise
  of_secret (resolved a) = pure a
  of_secret unresolved = raise (reprovision_error secret_unresolved)
  of_secret unset = raise (runtime_error no_secret)

  -- One call: the answer, and the event that records it.
  unfoldable pub call : (World → History → A) → (A → Event) → Exec A
  call f event w h = let a = f w h in (ok a, event a ∷ h)

module _ {A B : Type 0} where
  abbrev pub continue : Result A → (A → Exec B) → Exec B
  continue (ok a) f w h = f a w h
  continue (err e) f w h = (err e, h)

  infixl 10 ◌>>=◌ ◌>>◌
  unfoldable pub ◌>>=◌ : Exec A → (A → Exec B) → Exec B
  ◌>>=◌ m f w h = let (r, h') = m w h in continue r f w h'

  abbrev pub ◌>>◌ : Exec A → Exec B → Exec B
  m >> n = m >>= λ _. n

module _ {A : Type 0} where
  abbrev pub handle : Result A → (Failure → Exec A) → Exec A
  handle (ok a) f w h = (ok a, h)
  handle (err e) f w h = f e w h

  -- `try: … except Exception as e: …`
  unfoldable pub catch : Exec A → (Failure → Exec A) → Exec A
  catch m f w h = let (r, h') = m w h in handle r f w h'

-- `except ReprovisionError`, which takes `NotReadyError` too.
unfoldable pub is_reprovision_error : Failure → Bool
is_reprovision_error (reprovision_error r) = true
is_reprovision_error (not_ready r) = true
is_reprovision_error _ = false

unfoldable pub done : Exec (Unit {0})
unfolding pure
done = pure tt

-- `if b: m`
unfoldable pub when : Bool → Exec (Unit {0}) → Exec (Unit {0})
unfolding done
when b m = if b then m else done

-- The calls.
unfoldable pub monotonic : Exec ℕ
unfolding call
monotonic = call (λ w h. w.now h) read_clock

unfoldable pub sleep : ℕ → Exec (Unit {0})
unfolding call
sleep n = call (λ w h. tt) (λ _. slept n)

unfoldable pub connect : Text → Exec Bool
unfolding call
connect host = call (λ w h. w.connect h host) (connected host)

unfoldable pub forget_host_key : Text → Exec (Unit {0})
unfolding call
forget_host_key host = call (λ w h. tt) (λ _. forgot_key host)

unfoldable pub expect_login : Text → Exec (Option ℕ)
unfolding call
expect_login host = call (λ w h. w.password_login h host) (logged_in host)

unfoldable pub ssh_call : Text → Command → Exec SshReply
unfolding call
ssh_call host command = call (λ w h. w.ssh_run h host command) (ssh host command)

unfoldable pub http_call : Request → Exec (Option Response)
unfolding call
http_call q = call (λ w h. w.request h q) (http q)

unfoldable pub of_tc : {A : Type 0} → TcReply A → Exec A
unfolding pure raise
of_tc (answer a) = pure a
of_tc (rest_failure code) = raise (tc_rest code)
of_tc other_failure = raise tc_other

unfoldable pub worker_call : Text → Text → Text → Exec (TcReply Worker)
unfolding call
worker_call pool group worker =
    call (λ w h. w.get_worker h pool group worker) (asked_worker pool group worker)

unfoldable pub task_call : Text → Exec (TcReply TaskStatus)
unfolding call
task_call task = call (λ w h. w.task_status h task) (asked_task task)

unfoldable pub quarantine_call : Text → Text → Text → Text → Option Text → Exec (TcReply (Unit {0}))
unfolding call
quarantine_call pool group worker until info =
    call (λ w h. w.quarantine_worker h pool group worker until info)
      (set_quarantine pool group worker until info)
