-- ===== src/Effects/Ends.antt =====
-- Actions that end: none of the model's loops runs out of fuel. A wait loop ends because the clock
-- goes on by its pause in each round.
use relops_bootstrap.Prelude.{
  ℕ, zero, suc, ◌+◌, ◌≤◌, ◌<◌, ◌≡◌, ◌≢◌, refl, Bool, true, false, Option, none, some, ◌∷◌, Text,
  ltb, ltb→lt, if◌then◌else◌, arith,
}
use relops_bootstrap.Effects.Calls.{
  World, Secret, resolved, unresolved, unset, IsClock, History, Event, Result, ok, err, Failure,
  Reason, reprovision_error, not_ready, timeout_error, value_error, runtime_error, http_status,
  transport, tc_rest, tc_other, out_of_fuel, Command, Request, TcReply, answer, rest_failure,
  other_failure, read_clock, slept,
}
use relops_bootstrap.Effects.Actions.{
  Exec, pure, raise, ask, of_secret, call, continue, ◌>>=◌, handle, catch, done, when, monotonic,
  sleep, connect, forget_host_key, expect_login, ssh_call, http_call, of_tc, worker_call, task_call,
  quarantine_call,
}
use relops_bootstrap.Effects.Poll.{Round, found, again, after_round, poll, poll_for}
use relops_bootstrap.Effects.Keeps.{Keeps, IsStable}

abbrev pub Fits : {A : Type 0} → Result A → Type 0
Fits r = r ≢ err out_of_fuel

-- In the world `w` the action does not run out of fuel, whatever has happened before.
pub record Ends {A : Type 0} (w : World) (m : Exec A) : Type 0 where
  pub at : (h : History) → Fits (m w h).0

pub ok-Fits : {A : Type 0} (a : A) → Fits (ok a)
ok-Fits a = λ e. cc

module _ {A B : Type 0} (w : World) where
  Fits-continue :
      (r : Result A) (f : A → Exec B) (h : History)
      → Fits r
      → ((a : A) → r ≡ ok a → Fits (f a w h).0)
      → Fits (continue r f w h).0
  Fits-continue (ok a) f h fits kf = kf a refl
  Fits-continue (err e) f h fits kf = λ q. fits (cc)

  Fits-bind :
      (m : Exec A) (f : A → Exec B) (h : History)
      → Fits (m w h).0
      → ((a : A) → (m w h).0 ≡ ok a → Fits (f a w (m w h).1).0)
      → Fits ((m >>= f) w h).0
  unfolding ◌>>=◌
  Fits-bind m f h fits kf = Fits-continue (m w h).0 f (m w h).1 fits kf

module _ {A : Type 0} (w : World) where
  Fits-if :
      (b : Bool) (m n : Exec A) (h : History)
      → (b ≡ true → Fits (m w h).0)
      → (b ≡ false → Fits (n w h).0)
      → Fits ((if b then m else n) w h).0
  Fits-if true m n h km kn = km refl
  Fits-if false m n h km kn = kn refl

module _ {w : World} {A : Type 0} where
  pub Ends-pure : (a : A) → Ends w (pure a)
  unfolding pure
  Ends-pure a = record { at = λ h. ok-Fits a }

  pub Ends-raise : (f : Failure) → f ≢ out_of_fuel → Ends w (raise {A = A} f)
  unfolding raise
  Ends-raise f ne = record { at = λ h e. ne (cc) }

  pub Ends-ask : (f : World → A) → Ends w (ask f)
  unfolding ask
  Ends-ask f = record { at = λ h. ok-Fits (f w) }

  pub Ends-of_secret : (x : Secret A) → Ends w (of_secret x)
  unfolding of_secret
  Ends-of_secret (resolved a) = Ends-pure a
  Ends-of_secret unresolved = record { at = λ h e. cc }
  Ends-of_secret unset = record { at = λ h e. cc }

  pub Ends-if : (b : Bool) (m n : Exec A) → Ends w m → Ends w n → Ends w (if b then m else n)
  Ends-if true m n em en = em
  Ends-if false m n em en = en

  pub Ends-call : (f : World → History → A) (event : A → Event) → Ends w (call f event)
  unfolding call
  Ends-call f event = record { at = λ h. ok-Fits (f w h) }

  Fits-handle :
      (r : Result A) (f : Failure → Exec A) (h : History)
      → ((e : Failure) → r ≡ err e → Fits (f e w h).0)
      → Fits (handle r f w h).0
  Fits-handle (ok a) f h kf = ok-Fits a
  Fits-handle (err e) f h kf = kf e refl

  -- The handler is not called on the model's own failure, which the action does not have.
  pub Ends-catch :
      (m : Exec A) (f : Failure → Exec A)
      → Ends w m
      → ((e : Failure) → e ≢ out_of_fuel → Ends w (f e))
      → Ends w (catch m f)
  unfolding catch
  Ends-catch m f em ef = record {
    at = λ h.
        Fits-handle (m w h).0 f (m w h).1 λ e q. (ef e (λ z. em.at h (rw (← z) q))).at (m w h).1;
  }

  pub Ends-of_tc : (r : TcReply A) → Ends w (of_tc r)
  unfolding of_tc
  Ends-of_tc (answer a) = Ends-pure a
  Ends-of_tc (rest_failure c) = record { at = λ h e. cc }
  Ends-of_tc other_failure = record { at = λ h e. cc }

pub Ends-bind :
    {w : World} {A B : Type 0} (m : Exec A) (f : A → Exec B)
    → Ends w m
    → ((a : A) → Ends w (f a))
    → Ends w (m >>= f)
Ends-bind {w} m f em ef = record {
  at = λ h. Fits-bind w m f h (em.at h) (λ a q. (ef a).at (m w h).1);
}

-- What the world holds fixed is known to the rest of a block.
pub Ends-asked :
    {w : World} {A B : Type 0} (g : World → A) (f : A → Exec B)
    → Ends w (f (g w))
    → Ends w (ask g >>= f)
unfolding ask ◌>>=◌
Ends-asked g f ef = record { at = ef.at }

module _ {w : World} where
  pub Ends-done : Ends w done
  unfolding done
  Ends-done = record { at = λ h. ok-Fits tt }

  pub Ends-when : (b : Bool) (m : Exec (Unit {0})) → Ends w m → Ends w (when b m)
  unfolding when
  Ends-when b m em = Ends-if b m done em Ends-done

  pub Ends-monotonic : Ends w monotonic
  unfolding monotonic
  Ends-monotonic = record { at = λ h. ok-Fits _ }

  pub Ends-sleep : (n : ℕ) → Ends w (sleep n)
  unfolding sleep
  Ends-sleep n = record { at = λ h. ok-Fits _ }

  pub Ends-connect : (host : Text) → Ends w (connect host)
  unfolding connect
  Ends-connect host = record { at = λ h. ok-Fits _ }

  pub Ends-forget_host_key : (host : Text) → Ends w (forget_host_key host)
  unfolding forget_host_key
  Ends-forget_host_key host = record { at = λ h. ok-Fits _ }

  pub Ends-expect_login : (host : Text) → Ends w (expect_login host)
  unfolding expect_login
  Ends-expect_login host = record { at = λ h. ok-Fits _ }

  pub Ends-ssh_call : (host : Text) (c : Command) → Ends w (ssh_call host c)
  unfolding ssh_call
  Ends-ssh_call host c = record { at = λ h. ok-Fits _ }

  pub Ends-http_call : (q : Request) → Ends w (http_call q)
  unfolding http_call
  Ends-http_call q = record { at = λ h. ok-Fits _ }

  pub Ends-worker_call : (pool group id : Text) → Ends w (worker_call pool group id)
  unfolding worker_call
  Ends-worker_call pool group id = record { at = λ h. ok-Fits _ }

  pub Ends-task_call : (task : Text) → Ends w (task_call task)
  unfolding task_call
  Ends-task_call task = record { at = λ h. ok-Fits _ }

  pub Ends-quarantine_call :
      (pool group id until : Text) (info : Option Text)
      → Ends w (quarantine_call pool group id until info)
  unfolding quarantine_call
  Ends-quarantine_call pool group id until info = record { at = λ h. ok-Fits _ }

-- The action takes no time back.
abbrev pub GoesOn : {A : Type 0} → World → Exec A → Type 0
GoesOn w m = (t : ℕ) → Keeps w (λ h. t ≤ w.now h) m

module _ {A S : Type 0} {w : World} (clock : IsClock w) (round : S → Exec (Round A S)) where
  module _ (deadline pause : ℕ) (positive : 0 < pause) where
    -- After a round that goes on, the rest of the loop starts at least a second later.
    Fits-after_round :
        (next : S → Exec (Option A)) (r : Round A S) (h : History)
        → ((s : S) → Fits (next s w (slept pause ∷ h)).0)
        → Fits (after_round round deadline pause next r w h).0
    unfolding after_round pure sleep ◌>>=◌
    Fits-after_round next (found a) h fits = ok-Fits (some a)
    Fits-after_round next (again s) h fits = fits s

    -- With a second of fuel for each second that is left, and one more.
    Fits-poll :
        ((s : S) → Ends w (round s))
        → ((s : S) → GoesOn w (round s))
        → (fuel : ℕ) (s : S) (h : History) → deadline < w.now h + suc fuel
        → Fits (poll round deadline pause (suc fuel) s w h).0
    unfolding poll monotonic
    Fits-poll ends on zero s h enough = Fits-bind w monotonic _ h (ok-Fits (w.now h)) λ now q.
        let same : w.now h ≡ now = cc in
        Fits-if w (ltb now deadline) _ _ _
          (λ before. absurd (omega (arith, ltb→lt now deadline before)))
          (λ after. (Ends-pure none).at _)
    Fits-poll ends on (suc fuel) s h enough = Fits-bind w monotonic _ h (ok-Fits (w.now h)) λ now q.
        let h1 = (monotonic w h).1 in
        Fits-if w (ltb now deadline) _ _ h1
          (λ before. Fits-bind w (round s) _ h1 ((ends s).at h1) λ r _.
            let h2 = (round s w h1).1 in
            Fits-after_round _ r h2 λ s'.
              Fits-poll ends on fuel s' _
                (omega (arith, (on s (w.now h)).at h1 (clock.forward _ h), clock.sleeps pause h2)))
          (λ after. (Ends-pure none).at h1)

  pub Ends-poll_for :
      (max_wait pause : ℕ) (s : S)
      → 0 < pause
      → ((s : S) → Ends w (round s))
      → ((s : S) → GoesOn w (round s))
      → Ends w (poll_for max_wait pause round s)
  unfolding poll_for monotonic
  Ends-poll_for max_wait pause s positive ends on = record {
    at = λ h. Fits-bind w monotonic _ h (ok-Fits (w.now h)) λ start q.
        let same : w.now h ≡ start = cc in
        Fits-poll (start + max_wait) pause positive ends on max_wait s _
          (omega (arith, clock.forward (read_clock (w.now h)) h));
  }

-- The program's own failures are not the model's.
module _ {w : World} {A : Type 0} where
  pub Ends-reprovision_error : (r : Reason) → Ends w (raise {A = A} (reprovision_error r))
  Ends-reprovision_error r = Ends-raise _ (λ e. cc)

  pub Ends-not_ready : (r : Reason) → Ends w (raise {A = A} (not_ready r))
  Ends-not_ready r = Ends-raise _ (λ e. cc)

  pub Ends-timeout_error : (r : Reason) → Ends w (raise {A = A} (timeout_error r))
  Ends-timeout_error r = Ends-raise _ (λ e. cc)

  pub Ends-value_error : (r : Reason) → Ends w (raise {A = A} (value_error r))
  Ends-value_error r = Ends-raise _ (λ e. cc)

  pub Ends-runtime_error : (r : Reason) → Ends w (raise {A = A} (runtime_error r))
  Ends-runtime_error r = Ends-raise _ (λ e. cc)

  pub Ends-tc_rest : (r : ℕ) → Ends w (raise {A = A} (tc_rest r))
  Ends-tc_rest r = Ends-raise _ (λ e. cc)

  pub Ends-http_status : (r : ℕ) → Ends w (raise {A = A} (http_status r))
  Ends-http_status r = Ends-raise _ (λ e. cc)

  pub Ends-tc_other : Ends w (raise {A = A} tc_other)
  Ends-tc_other = Ends-raise _ (λ e. cc)

  pub Ends-transport : Ends w (raise {A = A} transport)
  Ends-transport = Ends-raise _ (λ e. cc)

-- Time goes on in every call, so every action that erases nothing goes on.
pub Time-IsStable : {w : World} → IsClock w → (t : ℕ) → IsStable (λ h. t ≤ w.now h)
Time-IsStable {w} clock t = record { after = λ e h quiet p. omega (arith, clock.forward e h) }

pub ruleset ends_rules = (
  Ends-pure, Ends-raise, Ends-reprovision_error, Ends-not_ready, Ends-timeout_error,
  Ends-value_error, Ends-runtime_error, Ends-tc_rest, Ends-http_status, Ends-tc_other,
  Ends-transport, Ends-ask, Ends-of_secret, Ends-if, Ends-catch, Ends-of_tc, Ends-bind, Ends-done,
  Ends-when, Ends-monotonic, Ends-sleep, Ends-connect, Ends-forget_host_key, Ends-expect_login,
  Ends-ssh_call, Ends-http_call, Ends-worker_call, Ends-task_call, Ends-quarantine_call,
)
