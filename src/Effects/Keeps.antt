-- ===== src/Effects/Keeps.antt =====
-- Invariants of actions: one rule for each way to build an action. The calls keep whatever survives
-- a call that erases nothing.
use relops_bootstrap.Prelude.{
  ℕ, zero, suc, ◌≡◌, refl, ◌∙◌, Bool, true, false, Option, none, some, ◌∷◌, Text, if◌then◌else◌,
}
use relops_bootstrap.Effects.Calls.{
  World, Secret, resolved, unresolved, unset, History, Event, http, wipe, Result, ok, err, Failure,
  Command, Request, Response, TcReply, answer, rest_failure, other_failure,
}
use relops_bootstrap.Effects.Actions.{
  Exec, pure, raise, lift, ask, of_secret, continue, ◌>>=◌, handle, catch, done, when, monotonic,
  sleep, connect, forget_host_key, expect_login, ssh_call, http_call, of_tc, worker_call, task_call,
  quarantine_call,
}
use relops_bootstrap.Effects.Poll.{Round, found, again, after_round, poll, poll_for}

-- `m` keeps `P` in the world `w`, whether it returns or raises.
pub record Keeps {A : Type 0} (w : World) (P : History → Type 0) (m : Exec A) : Type 0 where
  pub at : (h : History) → P h → P (m w h).1

-- Every event but the request to erase a device.
abbrev pub is_harmless : Event → Bool
is_harmless (http (wipe device mode) r) = false
is_harmless _ = true

abbrev pub is_harmless_request : Request → Bool
is_harmless_request (wipe device mode) = false
is_harmless_request _ = true

is_harmless-http :
    (q : Request) (r : Option Response) → is_harmless (http q r) ≡ is_harmless_request q
is_harmless-http (wipe device mode) r = refl
is_harmless-http _ r = refl

-- `P` survives every call but an erasing one.
pub record IsStable (P : History → Type 0) : Type 0 where
  pub after : (e : Event) (h : History) → is_harmless e ≡ true → P h → P (e ∷ h)

module _ {w : World} {P : History → Type 0} {A : Type 0} where
  pub Keeps-pure : (a : A) → Keeps w P (pure a)
  unfolding pure
  Keeps-pure a = record { at = λ h p. p }

  pub Keeps-raise : (f : Failure) → Keeps w P (raise {A = A} f)
  unfolding raise
  Keeps-raise f = record { at = λ h p. p }

  pub Keeps-lift : (r : Result A) → Keeps w P (lift r)
  unfolding lift
  Keeps-lift r = record { at = λ h p. p }

  pub Keeps-ask : (f : World → A) → Keeps w P (ask f)
  unfolding ask
  Keeps-ask f = record { at = λ h p. p }

  pub Keeps-of_secret : (x : Secret A) → Keeps w P (of_secret x)
  unfolding of_secret
  Keeps-of_secret (resolved a) = Keeps-pure a
  Keeps-of_secret unresolved = record { at = λ h p. p }
  Keeps-of_secret unset = record { at = λ h p. p }

  pub Keeps-if :
      (b : Bool) (m n : Exec A) → Keeps w P m → Keeps w P n → Keeps w P (if b then m else n)
  Keeps-if true m n km kn = km
  Keeps-if false m n km kn = kn

  Keeps-handle :
      (r : Result A) (f : Failure → Exec A) (h : History)
      → ((e : Failure) → Keeps w P (f e))
      → P h
      → P (handle r f w h).1
  Keeps-handle (ok a) f h kf p = p
  Keeps-handle (err e) f h kf p = (kf e).at h p

  pub Keeps-catch :
      (m : Exec A) (f : Failure → Exec A)
      → Keeps w P m
      → ((e : Failure) → Keeps w P (f e))
      → Keeps w P (catch m f)
  unfolding catch
  Keeps-catch m f km kf = record { at = λ h p. Keeps-handle (m w h).0 f (m w h).1 kf (km.at h p) }

  pub Keeps-of_tc : (r : TcReply A) → Keeps w P (of_tc r)
  unfolding of_tc
  Keeps-of_tc (answer a) = Keeps-pure a
  Keeps-of_tc (rest_failure c) = record { at = λ h p. p }
  Keeps-of_tc other_failure = record { at = λ h p. p }

module _ {w : World} {P : History → Type 0} {A B : Type 0} where
  Keeps-continue :
      (r : Result A) (f : A → Exec B) (h : History)
      → ((a : A) → Keeps w P (f a))
      → P h
      → P (continue r f w h).1
  Keeps-continue (ok a) f h kf p = (kf a).at h p
  Keeps-continue (err e) f h kf p = p

  pub Keeps-bind :
      (m : Exec A) (f : A → Exec B)
      → Keeps w P m
      → ((a : A) → Keeps w P (f a))
      → Keeps w P (m >>= f)
  unfolding ◌>>=◌
  Keeps-bind m f km kf = record { at = λ h p. Keeps-continue (m w h).0 f (m w h).1 kf (km.at h p) }

module _ {w : World} {P : History → Type 0} where
  pub Keeps-done : Keeps w P done
  unfolding done
  Keeps-done = record { at = λ h p. p }

  pub Keeps-when : (b : Bool) (m : Exec (Unit {0})) → Keeps w P m → Keeps w P (when b m)
  unfolding when
  Keeps-when b m km = Keeps-if b m done km Keeps-done

  module _ (st : IsStable P) where
    pub Keeps-monotonic : Keeps w P monotonic
    unfolding monotonic
    Keeps-monotonic = record { at = λ h p. st.after _ h refl p }

    pub Keeps-sleep : (n : ℕ) → Keeps w P (sleep n)
    unfolding sleep
    Keeps-sleep n = record { at = λ h p. st.after _ h refl p }

    pub Keeps-connect : (host : Text) → Keeps w P (connect host)
    unfolding connect
    Keeps-connect host = record { at = λ h p. st.after _ h refl p }

    pub Keeps-forget_host_key : (host : Text) → Keeps w P (forget_host_key host)
    unfolding forget_host_key
    Keeps-forget_host_key host = record { at = λ h p. st.after _ h refl p }

    pub Keeps-expect_login : (host : Text) → Keeps w P (expect_login host)
    unfolding expect_login
    Keeps-expect_login host = record { at = λ h p. st.after _ h refl p }

    pub Keeps-ssh_call : (host : Text) (c : Command) → Keeps w P (ssh_call host c)
    unfolding ssh_call
    Keeps-ssh_call host c = record { at = λ h p. st.after _ h refl p }

    pub Keeps-http_call : (q : Request) → is_harmless_request q ≡ true → Keeps w P (http_call q)
    unfolding http_call
    Keeps-http_call q harmless = record {
      at = λ h p. st.after (http q (w.request h q)) h (is_harmless-http q _ ∙ harmless) p;
    }

    pub Keeps-worker_call : (pool group id : Text) → Keeps w P (worker_call pool group id)
    unfolding worker_call
    Keeps-worker_call pool group id = record { at = λ h p. st.after _ h refl p }

    pub Keeps-task_call : (task : Text) → Keeps w P (task_call task)
    unfolding task_call
    Keeps-task_call task = record { at = λ h p. st.after _ h refl p }

    pub Keeps-quarantine_call :
        (pool group id until : Text) (info : Option Text)
        → Keeps w P (quarantine_call pool group id until info)
    unfolding quarantine_call
    Keeps-quarantine_call pool group id until info = record { at = λ h p. st.after _ h refl p }

module _ {w : World} {P : History → Type 0} {A S : Type 0} (st : IsStable P) where
  Keeps-after_round :
      (pause : ℕ) (round : S → Exec (Round A S)) (deadline : ℕ) (next : S → Exec (Option A))
      (r : Round A S)
      → ((s : S) → Keeps w P (next s))
      → Keeps w P (after_round round deadline pause next r)
  unfolding after_round
  Keeps-after_round pause round deadline next (found a) kn = Keeps-pure (some a)
  Keeps-after_round pause round deadline next (again s) kn =
      Keeps-bind (sleep pause) (λ _. next s) (Keeps-sleep st pause) (λ _. kn s)

  Keeps-poll :
      (round : S → Exec (Round A S)) (deadline pause : ℕ)
      → ((s : S) → Keeps w P (round s))
      → (fuel : ℕ) (s : S) → Keeps w P (poll round deadline pause fuel s)
  unfolding poll
  Keeps-poll round deadline pause kr zero s = Keeps-raise _
  Keeps-poll round deadline pause kr (suc fuel) s = Keeps-bind _ _ (Keeps-monotonic st) λ now.
      Keeps-if _ _ _
        (Keeps-bind _ _ (kr s) (λ r.
          Keeps-after_round pause round deadline _ r (Keeps-poll round deadline pause kr fuel)))
        (Keeps-pure none)

  pub Keeps-poll_for :
      (max_wait pause : ℕ) (round : S → Exec (Round A S)) (s : S)
      → ((s : S) → Keeps w P (round s))
      → Keeps w P (poll_for max_wait pause round s)
  unfolding poll_for
  Keeps-poll_for max_wait pause round s kr =
      Keeps-bind _ _ (Keeps-monotonic st) λ start. Keeps-poll round _ pause kr (suc max_wait) s

pub ruleset keeps_rules = (
  Keeps-pure, Keeps-raise, Keeps-lift, Keeps-ask, Keeps-of_secret, Keeps-if, Keeps-catch,
  Keeps-of_tc, Keeps-bind, Keeps-done, Keeps-when, Keeps-monotonic, Keeps-sleep, Keeps-connect,
  Keeps-forget_host_key, Keeps-expect_login, Keeps-ssh_call, Keeps-http_call, Keeps-worker_call,
  Keeps-task_call, Keeps-quarantine_call, Keeps-poll_for,
)
