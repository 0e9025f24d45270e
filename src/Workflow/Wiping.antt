-- ===== src/Workflow/Wiping.antt =====
-- The wipe is never sent on uncertainty: every request to erase that `step_wipe` sends comes after
-- the evidence that its gates ask for.
use relops_bootstrap.Prelude.{
  ℕ, ◌≡◌, refl, ap, ◌∙◌, inl, inr, Bool, true, false, not, ◌&&◌, Option, none, some, ◌∷◌, Text,
  codes, arith, ◌==◌,
}
use relops_bootstrap.Effects.{
  World, History, Event, Result, ok, err, Failure, Command, ssh, exited, timed_out, no_identity,
  SshReply, raise, done, Exec, ssh_call, bst_status, pgrep_worker, http_call, wipe,
  is_reprovision_error,
}
use relops_bootstrap.Effects.Keeps.{Keeps, IsStable, Keeps-forget_host_key, Keeps-done, Keeps-bind}
use relops_bootstrap.Effects.Gives.{
  Post, Gives, Gives-pure, Gives-raise, Gives-if, Gives-catch, Gives-bind, Gives-after, Gives-done,
  Gives-weaken, Gives-Keeps, Past, now, later,
}
use relops_bootstrap.Clients.Taskcluster.{is_currently_busy}
use relops_bootstrap.Clients.SimpleMdm
use relops_bootstrap.Clients.SimpleMdm.{get_device, request}
use relops_bootstrap.Clients.Ssh.{Completed, run, check_reply}
use relops_bootstrap.Clients.Keeps.{
  Keeps-is_currently_busy, Keeps-get_device, Keeps-request, clients_keep,
}
use relops_bootstrap.Workflow.Context.{HostContext}
use relops_bootstrap.Workflow.Keeps.{Keeps-add_hint, Keeps-or_value_error}
use relops_bootstrap.Workflow.Token.{step_escrow_bst}
use relops_bootstrap.Workflow.Erase.{
  escrow_gate, refuse_unescrowed, confirm_idle, idle_gate, worker_gate, erase, erase_known,
  known_device, step_wipe,
}
use relops_bootstrap.Workflow.Evidence.{
  Extends, Guarded-Extends, Ran-map, Ran, IsEscrowed, IsIdle, HasNoWorker, IsCleared, Guarded,
  start, erasing, Guarded-IsStable,
}

-- The last call was the command, made in a history with `P`, and this was the reply.
abbrev Replied : (History → Type 0) → Text → Command → SshReply → History → Type 0
Replied P host c reply h = (before : History) × P before × (h ≡ ssh host c reply ∷ before)

-- With `check` a returned exit code is 0.
abbrev pub Returned : (History → Type 0) → Text → Command → Bool → Completed → History → Type 0
Returned P host c check cp h = P h × Ran P host c cp h × (check ≡ true → cp.returncode ≡ 0)

checked_zero :
    (check : Bool) (code : ℕ) → (check && not (code == 0)) ≡ false → check ≡ true → code ≡ 0
checked_zero check code h c = ground arith

not-==-one : (n : ℕ) → not (n == 1) ≡ false → n ≡ 1
not-==-one n h = ground arith

not-==-false : (n : ℕ) → not (n == 0) ≡ false → n ≡ 0
not-==-false n h = ground arith

module _ {w : World} (P : History → Type 0) (host : Text) (c : Command) (check : Bool) where
  check_reply-Returned :
      (reply : SshReply)
      → Gives w
          (λ h. P h × Replied P host c reply h)
          (check_reply reply check)
          (Returned P host c check)
          P
  unfolding check_reply
  check_reply-Returned timed_out = Gives-raise _ (λ h p. p.0)
  check_reply-Returned no_identity = Gives-raise _ (λ h p. p.0)
  check_reply-Returned (exited code out error) =
      Gives-if _ _ _
        (λ e.
          Gives-if (code == 255) (raise _) (raise _) (λ _. Gives-raise _ (λ h p. p.0))
            (λ _. Gives-raise _ (λ h p. p.0)))
        (λ e. Gives-pure _ (λ h p. (p.0, p.1, checked_zero check code e)))

  pub run-Returned : IsStable P → Gives w P (run host c check) (Returned P host c check) P
  unfolding run ssh_call
  run-Returned st =
      Gives-bind (λ reply h. P h × Replied P host c reply h) _ _
        (record { at = λ h p. (st.after _ h refl p, (h, p, refl)) }) check_reply-Returned

module _ (w : World) (ctx : HostContext) (S G : History → Type 0) (sees : (h : History) → G h → S h)
    (st : IsStable G) where
  abbrev Escrowed : History → Type 0
  Escrowed h = G h × Past (IsEscrowed ctx S) h

  -- The escrow confirms itself before it returns.
  step_escrow_bst-Escrowed : Gives w G (step_escrow_bst ctx) (λ u. Escrowed) G
  unfolding step_escrow_bst
  step_escrow_bst-Escrowed =
      Gives-after _ _ (search clients_keep) (λ h g. g)
        λ s.
          Gives-after _ _ (search clients_keep) (λ h g. g)
            λ secret.
              Gives-after _ _ (search clients_keep) (λ h g. g)
                λ password.
                  Gives-after _ _ (search (clients_keep, Keeps-add_hint)) (λ h g. g)
                    λ u. Gives-bind _ _ _ (run-Returned G ctx.fqdn bst_status true st) λ cp.
                      Gives-if _ _ _
                        (λ said.
                          Gives-done (λ h q. (q.0, now (cp, Ran-map sees q.1, q.2 refl, said))))
                        (λ _. Gives-raise _ (λ h q. q.0))

  refuse_unescrowed-Escrowed : (e : Failure) → Gives w G (refuse_unescrowed e) (λ u. Escrowed) G
  unfolding refuse_unescrowed
  refuse_unescrowed-Escrowed e =
      Gives-if (is_reprovision_error e) (raise _) (raise e) (λ _. Gives-raise _ (λ h g. g))
        (λ _. Gives-raise e (λ h g. g))

  escrow_gate-Escrowed : Gives w G (escrow_gate ctx) (λ u. Escrowed) G
  unfolding escrow_gate
  escrow_gate-Escrowed = Gives-bind _ _ _ (run-Returned G ctx.fqdn bst_status false st) λ bst.
      Gives-if _ _ _ (λ _. Gives-raise _ (λ h q. q.0))
        λ zero.
          Gives-if _ _ _
            (λ said.
              Gives-done
                λ h q. (q.0, now (bst, Ran-map sees q.1, not-==-false bst.returncode zero, said)))
            (λ _. record {
              at = λ h q.
                  (Gives-catch (step_escrow_bst ctx) refuse_unescrowed G step_escrow_bst-Escrowed
                      refuse_unescrowed-Escrowed).at
                    h q.0;
            })

  Escrowed-IsStable : IsStable Escrowed
  Escrowed-IsStable = record { after = λ e h quiet p. (st.after e h quiet p.0, later e p.1) }

  abbrev Idle : History → Type 0
  Idle h = Escrowed h × Past (IsIdle w ctx S) h

  Idle-IsStable : IsStable Idle
  Idle-IsStable = record {
    after = λ e h quiet p. (Escrowed-IsStable.after e h quiet p.0, later e p.1);
  }

  -- What the check answered is remembered with its answer.
  abbrev Answered : Bool → History → Type 0
  Answered busy h = Escrowed h × (busy ≡ false → Past (IsIdle w ctx S) h)

  abbrev check : Exec Bool
  check = is_currently_busy ctx.worker_pool_id ctx.worker_group ctx.hostname

  check-Answered :
      (before h : History) (r : Result Bool)
      → (check w before ≡ (r, h))
      → S before
      → Escrowed h
      → Post Answered Escrowed r h
  check-Answered before h (ok busy) e s p =
      (p, λ idle. now (before, s, e ∙ ap (λ (b : Bool). (ok b, h)) idle))
  check-Answered before h (err f) e s p = p

  confirm_idle-Answered : Gives w Escrowed (confirm_idle ctx) Answered G
  unfolding confirm_idle
  confirm_idle-Answered =
      Gives-catch check _ Escrowed
        (record {
          at = λ h p.
              check-Answered h (check w h).1 (check w h).0 refl (sees h p.0)
                ((Keeps-is_currently_busy Escrowed-IsStable _ _ _).at h p);
        })
        (λ e. Gives-raise _ (λ h p. p.0))

  idle_gate-Idle : Gives w Escrowed (idle_gate ctx) (λ u. Idle) G
  unfolding idle_gate
  idle_gate-Idle = Gives-bind Answered _ _ confirm_idle-Answered λ busy.
      Gives-if busy _ _ (λ _. Gives-raise _ (λ h p. p.0.0))
        (λ idle. Gives-done (λ h p. (p.0, p.1 idle)))

  abbrev Cleared : History → Type 0
  Cleared h = G h × IsCleared w ctx S h

  Cleared-of_registered : (h : History) → ctx.registered ≡ true → Idle h → Cleared h
  Cleared-of_registered h r p = (p.0.0, record { escrowed = p.0.1; idle = p.1; no_worker = inl r })

  Cleared-of_no_worker : (h : History) → Past (HasNoWorker ctx S) h → Idle h → Cleared h
  Cleared-of_no_worker h n p = (p.0.0, record { escrowed = p.0.1; idle = p.1; no_worker = inr n })

  worker_gate-Cleared : Gives w Idle (worker_gate ctx) (λ u. Cleared) G
  unfolding worker_gate
  worker_gate-Cleared =
      Gives-if ctx.registered done _ (λ r. Gives-done (λ h p. Cleared-of_registered h r p))
        (λ _.
          Gives-weaken (λ h p. p.0.0)
            (Gives-bind _ _ _ (run-Returned Idle ctx.fqdn pgrep_worker false Idle-IsStable) λ cp.
              Gives-if (not (cp.returncode == 1)) _ done
                (λ _.
                  Gives-after _ _ (Keeps-or_value_error _ _) (λ h q. q.0)
                    (λ pools. Gives-raise _ (λ h q. q.0)))
                (λ one. Gives-done (λ h q.
                  Cleared-of_no_worker h
                    (now (cp, Ran-map (λ b i. sees b i.0.0) q.1, not-==-one cp.returncode one))
                    q.0))))

  IsCleared-later : (e : Event) (h : History) → IsCleared w ctx S h → IsCleared w ctx S (e ∷ h)
  IsCleared-later e h c = record {
    escrowed = later e c.escrowed;
    idle = later e c.idle;
    no_worker = elim c.no_worker [ inl r ↦ inl r | inr n ↦ inr (later e n) ];
  }

  Cleared-IsStable : IsStable Cleared
  Cleared-IsStable = record {
    after = λ e h quiet p. (st.after e h quiet p.0, IsCleared-later e h p.1);
  }

-- What `step_wipe` asks for before a request to erase, by calls made since `base`.
abbrev pub MayWipe : World → HostContext → History → ℕ → Text → History → Type 0
MayWipe w ctx base device mode h =
    (known_device ctx.simplemdm_device_id ≡ some device)
    × (mode ≡ codes "DoNotObliterate")
    × IsCleared w ctx (Extends base) h

module _ (w : World) (ctx : HostContext) (base : History) where
  abbrev Guard : History → Type 0
  Guard = Guarded (MayWipe w ctx base) base

  abbrev sees : (h : History) → Guard h → Extends base h
  sees h g = Guarded-Extends g

  module _ (device : ℕ) (known : known_device ctx.simplemdm_device_id ≡ some device) where
    wipe_call-Cleared :
        Keeps w
          (Cleared w ctx (Extends base) Guard sees Guarded-IsStable)
          (http_call (wipe device (codes "DoNotObliterate")))
    unfolding http_call
    wipe_call-Cleared = record {
      at = λ h p. (
        erasing device _ _ (known, refl, p.1) p.0,
        IsCleared-later w ctx (Extends base) Guard sees Guarded-IsStable _ h p.1,
      );
    }

    Keeps-wipe :
        Keeps w (Cleared w ctx (Extends base) Guard sees Guarded-IsStable) (SimpleMdm.wipe device)
    unfolding SimpleMdm.wipe
    Keeps-wipe =
        Keeps-bind _ _
          (Keeps-request (Cleared-IsStable w ctx (Extends base) Guard sees Guarded-IsStable) _
            wipe_call-Cleared)
          (λ r. Keeps-done)

    erase-Guarded : Gives w Guard (erase ctx device) (λ c. Guard) Guard
    unfolding erase
    erase-Guarded =
        let st = Guarded-IsStable in
        Gives-after _ _ (Keeps-forget_host_key st _) (λ h g. g)
          λ u. Gives-bind _ _ _ (escrow_gate-Escrowed w ctx (Extends base) Guard sees st) λ u.
            Gives-bind _ _ _ (idle_gate-Idle w ctx (Extends base) Guard sees st) λ u.
              Gives-bind _ _ _ (worker_gate-Cleared w ctx (Extends base) Guard sees st) λ u.
                Gives-after _ _
                  (Keeps-get_device (Cleared-IsStable w ctx (Extends base) Guard sees st) device)
                  (λ h p. p.0)
                  λ d. Gives-after _ _ Keeps-wipe (λ h p. p.0) λ u. Gives-pure _ (λ h p. p.0)

  erase_known-Guarded :
      (o : Option ℕ) → known_device ctx.simplemdm_device_id ≡ o → Keeps w Guard (erase_known ctx o)
  unfolding erase_known raise
  erase_known-Guarded none e = record { at = λ h g. g }
  erase_known-Guarded (some device) e = Gives-Keeps (erase-Guarded device e)

  pub Keeps-step_wipe : Keeps w Guard (step_wipe ctx)
  unfolding step_wipe
  Keeps-step_wipe = erase_known-Guarded _ refl

-- In any world and after any history, each request to erase that `step_wipe` sends, the repeats of the
-- client included, names the host's own device and `DoNotObliterate`; and between the step's start and
-- the request the host was asked and said that its Bootstrap Token is escrowed, a busy check was made
-- and answered that the worker is idle, and, unless the host is registered, a search of it was made
-- and found no generic-worker.
pub step_wipe-Guarded :
    (w : World) (ctx : HostContext) (h : History)
    → Guarded (MayWipe w ctx h) h (step_wipe ctx w h).1
step_wipe-Guarded w ctx h = (Keeps-step_wipe w ctx h).at h start
