-- ===== src/Workflow/Safety.antt =====
-- What the whole runs may erase: `provision` nothing, `reprovision` the one host that it was asked
-- for, and that only past the gates of the wipe.
use relops_bootstrap.Prelude.{ℕ, ◌≡◌, refl, ◌∙◌, Bool, true, false, ◌&&◌, List, [], ◌∷◌, Text}
use relops_bootstrap.Effects.{
  World, History, Event, err, when, http, wipe, Exec, ◌>>=◌, ◌>>◌, ok, Result,
}
use relops_bootstrap.Effects.Gives.{Post, Gives, Gives-keeps, Post-same, Post-continue}
use relops_bootstrap.Effects.Keeps.{
  Keeps, Keeps-pure, IsStable, is_harmless, Keeps-bind, Keeps-when,
}
use relops_bootstrap.Workflow.Context.{HostContext, resolve}
use relops_bootstrap.Workflow.Keeps.{
  steps_keep, Keeps-step_quarantine, Keeps-step_drain, Keeps-step_wait_for_sentinel,
  Keeps-step_screencapture_grant, Keeps-step_unquarantine, Keeps-resolve,
  Keeps-step_wait_for_reenroll, Keeps-step_mint, Keeps-step_escrow_bst,
}
use relops_bootstrap.Workflow.Evidence.{
  Extends, Extends-trans, Guarded-Extends, IsCleared-map, Guarded, start, harmless, erasing,
  Guarded-IsStable,
}
use relops_bootstrap.Workflow.Wiping.{MayWipe, step_wipe-Guarded}
use relops_bootstrap.Workflow.Erase.{step_wipe}
use relops_bootstrap.Workflow.Hold.{step_unquarantine}
use relops_bootstrap.Workflow.Runs.{
  take_out, wipe_phase, bootstrap_phase, reprovision, provision_checks, provision_wait, watch,
  provision,
}

-- The requests to erase a device, those repeated included.
abbrev pub erases : History → List (ℕ × Text)
erases [] = []
erases (http (wipe device mode) r ∷ h) = (device, mode) ∷ erases h
erases (_ ∷ h) = erases h

erases-harmless : (e : Event) (h : History) → is_harmless e ≡ true → erases (e ∷ h) ≡ erases h
erases-harmless (http (wipe device mode) r) h q = cc
erases-harmless _ h q = refl

module _ (l : List (ℕ × Text)) where
  Erased-IsStable : IsStable (λ h. erases h ≡ l)
  Erased-IsStable = record { after = λ e h quiet p. erases-harmless e h quiet ∙ p }

module _ {w : World} {P : History → Type 0} (st : IsStable P) where
  Keeps-provision_checks : (wait q : Bool) → Keeps w P (provision_checks wait q)
  unfolding provision_checks
  Keeps-provision_checks wait q = search steps_keep

  Keeps-provision_wait : (ctx : HostContext) → Keeps w P (provision_wait ctx)
  unfolding provision_wait
  Keeps-provision_wait ctx = search steps_keep

  Keeps-watch : (ctx : HostContext) → Keeps w P (watch ctx)
  unfolding watch
  Keeps-watch ctx = search steps_keep

  Keeps-provision :
      (hostname expected_os : Text) (sip wait q : Bool)
      → Keeps w P (provision hostname expected_os sip wait q)
  unfolding provision
  Keeps-provision hostname expected_os sip wait q =
      search (steps_keep, Keeps-provision_checks, Keeps-provision_wait, Keeps-watch) depth 14

-- In any world and whatever the options, `provision` sends no request to erase a device, neither
-- when it succeeds nor when it fails.
pub provision-erases :
    (w : World) (hostname expected_os : Text) (sip wait q : Bool) (h : History)
    → erases (provision hostname expected_os sip wait q w h).1 ≡ erases h
provision-erases w hostname expected_os sip wait q h =
    (Keeps-provision (Erased-IsStable (erases h)) hostname expected_os sip wait q).at h refl

module _ {Allowed : ℕ → Text → History → Type 0} {base middle : History} where
  Guarded-trans :
      {h : History}
      → Guarded Allowed base middle
      → Guarded Allowed middle h
      → Guarded Allowed base h
  Guarded-trans g start = g
  Guarded-trans g (harmless e quiet k) = harmless e quiet (Guarded-trans g k)
  Guarded-trans g (erasing device mode r a k) = erasing device mode r a (Guarded-trans g k)

module _ {A B : ℕ → Text → History → Type 0}
    (allow : (d : ℕ) (m : Text) (h : History) → A d m h → B d m h) where
  Guarded-map : {base h : History} → Guarded A base h → Guarded B base h
  Guarded-map start = start
  Guarded-map (harmless e quiet g) = harmless e quiet (Guarded-map g)
  Guarded-map (erasing device mode r a g) =
      erasing device mode r (allow device mode _ a) (Guarded-map g)

MayWipe-earlier :
    (w : World) (ctx : HostContext) {base middle : History}
    → Extends base middle
    → (d : ℕ) (m : Text) (h : History) → MayWipe w ctx middle d m h
    → MayWipe w ctx base d m h
MayWipe-earlier w ctx x d m h (known, mode, cleared) =
    (known, mode, IsCleared-map (λ k y. Extends-trans x y) w ctx h cleared)

-- What a run of `reprovision` asks for before a request to erase: it is to wipe, and the host that
-- its first call resolved may be wiped.
abbrev pub RunMayWipe : World → Text → Bool → History → ℕ → Text → History → Type 0
RunMayWipe w hostname skip_wipe base device mode h =
    (skip_wipe ≡ false)
    × ((ctx : HostContext) × ((resolve hostname w base).0 ≡ ok ctx)
        × MayWipe w ctx base device mode h)

module _ (w : World) (hostname : Text) (skip_wipe : Bool) (base : History) where
  abbrev Guard : History → Type 0
  Guard = Guarded (RunMayWipe w hostname skip_wipe base) base

  module _ (ctx : HostContext) (resolved : (resolve hostname w base).0 ≡ ok ctx) where
    Keeps-run_wipe : skip_wipe ≡ false → Keeps w Guard (step_wipe ctx)
    Keeps-run_wipe wiping = record {
      at = λ h g. Guarded-trans g (
          Guarded-map
            (λ d m h' may.
              (wiping, (ctx, resolved, MayWipe-earlier w ctx (Guarded-Extends g) d m h' may)))
            (step_wipe-Guarded w ctx h));
    }

    Keeps-wipe_phase : (skip : Bool) → skip_wipe ≡ skip → Keeps w Guard (wipe_phase ctx skip)
    unfolding wipe_phase
    Keeps-wipe_phase true e = Keeps-pure ctx
    Keeps-wipe_phase false e = Keeps-bind _ _ (Keeps-run_wipe e) λ wiped.
        Keeps-bind _ _ (Keeps-step_wait_for_reenroll Guarded-IsStable wiped) λ u. Keeps-pure wiped

    Keeps-take_out : Keeps w Guard (take_out ctx)
    unfolding take_out
    Keeps-take_out =
        let st = Guarded-IsStable in
        Keeps-when _ _
          (Keeps-bind _ _ (Keeps-step_quarantine st _ _ _) (λ u. Keeps-step_drain st ctx))

  Keeps-bootstrap_phase : (ctx : HostContext) → Keeps w Guard (bootstrap_phase ctx)
  unfolding bootstrap_phase
  Keeps-bootstrap_phase ctx =
      let st = Guarded-IsStable in
      Keeps-bind _ _ (Keeps-step_mint st ctx) λ u.
        Keeps-bind _ _ (Keeps-step_escrow_bst st ctx) λ u.
          Keeps-bind _ _ (Keeps-step_wait_for_sentinel st ctx)
            λ u. Keeps-step_screencapture_grant st ctx

  -- What the first call of the run resolved.
  abbrev Resolved : HostContext → History → Type 0
  Resolved ctx h = ((resolve hostname w base).0 ≡ ok ctx) × Guard h

  Resolved-Post :
      (r : Result HostContext) (h : History)
      → (resolve hostname w base).0 ≡ r
      → Guard h
      → Post Resolved Guard r h
  Resolved-Post (ok ctx) h e g = (e, g)
  Resolved-Post (err f) h e g = g

  abbrev rest : Bool → HostContext → Exec (Unit {0})
  rest unquarantine ctx = do
    take_out ctx
    wiped ← wipe_phase ctx skip_wipe
    bootstrap_phase wiped
    when (unquarantine && wiped.registered) (step_unquarantine wiped)

  Keeps-rest :
      (unquarantine : Bool) (ctx : HostContext)
      → (resolve hostname w base).0 ≡ ok ctx
      → Keeps w Guard (rest unquarantine ctx)
  Keeps-rest unquarantine ctx e = Keeps-bind _ _ (Keeps-take_out ctx e) λ u.
      Keeps-bind _ _ (Keeps-wipe_phase ctx e skip_wipe refl) λ wiped.
        Keeps-bind _ _ (Keeps-bootstrap_phase wiped)
          λ u. Keeps-when _ _ (Keeps-step_unquarantine Guarded-IsStable wiped)

  Gives-rest :
      (unquarantine : Bool) (ctx : HostContext)
      → Gives w (Resolved ctx) (rest unquarantine ctx) (λ u. Guard) Guard
  Gives-rest unquarantine ctx = record {
    at = λ h p. (Gives-keeps _ (Keeps-rest unquarantine ctx p.0) (λ a h g. g) (λ h g. g)).at h p.1;
  }

-- In any world, each request to erase that `reprovision` sends names the device that its first call
-- resolved for the hostname, and comes after what `step_wipe` asks for: the escrow, the idle answer
-- and the absence of a worker on an unregistered host. With `skip_wipe` none is sent.
pub reprovision-Guarded :
    (w : World) (hostname : Text) (skip_wipe unquarantine : Bool) (h : History)
    → Guarded
        (RunMayWipe w hostname skip_wipe h)
        h
        (reprovision hostname skip_wipe unquarantine w h).1
unfolding reprovision ◌>>=◌
reprovision-Guarded w hostname skip_wipe unquarantine h =
    Post-same (Guarded (RunMayWipe w hostname skip_wipe h) h) _ _ (
      Post-continue w (Resolved w hostname skip_wipe h) (resolve hostname w h).0
        (rest w hostname skip_wipe h unquarantine) (resolve hostname w h).1
        (Gives-rest w hostname skip_wipe h unquarantine)
        (Resolved-Post w hostname skip_wipe h (resolve hostname w h).0 (resolve hostname w h).1 refl
          ((Keeps-resolve Guarded-IsStable hostname).at h start)))
