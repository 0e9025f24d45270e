-- ===== src/Workflow/Evidence.antt =====
-- What a history has to show before a device is erased.
use relops_bootstrap.Prelude.{ℕ, ◌≡◌, ◌⊎◌, inl, inr, true, false, Option, ◌∷◌, Text, contains}
use relops_bootstrap.Effects.{
  World, History, Event, ok, Command, ssh, exited, bst_status, pgrep_worker, http, wipe, Response,
}
use relops_bootstrap.Effects.Keeps.{IsStable, is_harmless}
use relops_bootstrap.Effects.Gives.{Past, Past-map}
use relops_bootstrap.Clients.Taskcluster.{is_currently_busy}
use relops_bootstrap.Clients.Ssh.{Completed}
use relops_bootstrap.Workflow.Context.{HostContext}
use relops_bootstrap.Workflow.Token.{escrowed_yes}

-- The history goes on from another.
pub data Extends (base : History) : History → Type 0 where
  same : Extends base base
  more : (e : Event) {h : History} → Extends base h → Extends base (e ∷ h)

pub Extends-trans : {a b : History} {h : History} → Extends a b → Extends b h → Extends a h
Extends-trans x same = x
Extends-trans x (more e y) = more e (Extends-trans x y)

-- The last call was the command, it was made in a history with `S`, and this is how it ended.
abbrev pub Ran : (History → Type 0) → Text → Command → Completed → History → Type 0
Ran S host command cp h =
    (before : History) × S before
    × (h ≡ ssh host command (exited cp.returncode cp.stdout cp.stderr) ∷ before)

-- The host has just said, with exit code 0, that its Bootstrap Token is escrowed.
abbrev pub IsEscrowed : HostContext → (History → Type 0) → History → Type 0
IsEscrowed ctx S h =
    (cp : Completed) × Ran S ctx.fqdn bst_status cp h
    × (cp.returncode ≡ 0)
    × (contains cp.stdout escrowed_yes ≡ true)

-- A check of the worker, begun in a history with `S`, has just answered that it is not busy.
abbrev pub IsIdle : World → HostContext → (History → Type 0) → History → Type 0
IsIdle w ctx S h =
    (before : History) × S before
    × (is_currently_busy ctx.worker_pool_id ctx.worker_group ctx.hostname w before ≡ (ok false, h))

-- The host has just been searched for a generic-worker, and pgrep found none.
abbrev pub HasNoWorker : HostContext → (History → Type 0) → History → Type 0
HasNoWorker ctx S h = (cp : Completed) × Ran S ctx.fqdn pgrep_worker cp h × (cp.returncode ≡ 1)

-- The host may be erased, by what was seen in histories with `S`.
pub record IsCleared (w : World) (ctx : HostContext) (S : History → Type 0) (h : History)
    : Type 0 where
  pub escrowed : Past (IsEscrowed ctx S) h
  pub idle : Past (IsIdle w ctx S) h
  pub no_worker : (ctx.registered ≡ true) ⊎ Past (HasNoWorker ctx S) h

module _ {S S' : History → Type 0} (weaker : (h : History) → S h → S' h) where
  pub Ran-map :
      {host : Text} {c : Command} {cp : Completed} {h : History}
      → Ran S host c cp h
      → Ran S' host c cp h
  Ran-map (before, s, eq) = (before, weaker before s, eq)

  IsEscrowed-map : (ctx : HostContext) (h : History) → IsEscrowed ctx S h → IsEscrowed ctx S' h
  IsEscrowed-map ctx h (cp, ran, zero, said) = (cp, Ran-map ran, zero, said)

  IsIdle-map : (w : World) (ctx : HostContext) (h : History) → IsIdle w ctx S h → IsIdle w ctx S' h
  IsIdle-map w ctx h (before, s, eq) = (before, weaker before s, eq)

  HasNoWorker-map : (ctx : HostContext) (h : History) → HasNoWorker ctx S h → HasNoWorker ctx S' h
  HasNoWorker-map ctx h (cp, ran, one) = (cp, Ran-map ran, one)

  pub IsCleared-map :
      (w : World) (ctx : HostContext) (h : History) → IsCleared w ctx S h → IsCleared w ctx S' h
  IsCleared-map w ctx h c = record {
    escrowed = Past-map (IsEscrowed-map ctx) c.escrowed;
    idle = Past-map (IsIdle-map w ctx) c.idle;
    no_worker = elim c.no_worker [ inl r ↦ inl r | inr n ↦ inr (Past-map (HasNoWorker-map ctx) n) ];
  }

-- The history goes on from `base`, and `Allowed` held whenever a request to erase was sent: the
-- device, the obliteration behaviour and the history before it.
pub data Guarded (Allowed : ℕ → Text → History → Type 0) (base : History) : History → Type 0 where
  start : Guarded Allowed base base
  harmless :
      (e : Event) {h : History}
      → is_harmless e ≡ true
      → Guarded Allowed base h
      → Guarded Allowed base (e ∷ h)
  erasing :
      (device : ℕ) (mode : Text) (r : Option Response) {h : History}
      → Allowed device mode h
      → Guarded Allowed base h
      → Guarded Allowed base (http (wipe device mode) r ∷ h)

pub Guarded-IsStable :
    {Allowed : ℕ → Text → History → Type 0} {base : History} → IsStable (Guarded Allowed base)
Guarded-IsStable = record { after = λ e h quiet g. harmless e quiet g }

pub Guarded-Extends :
    {Allowed : ℕ → Text → History → Type 0} {base h : History}
    → Guarded Allowed base h
    → Extends base h
Guarded-Extends start = same
Guarded-Extends (harmless e quiet g) = more e (Guarded-Extends g)
Guarded-Extends (erasing device mode r a g) = more _ (Guarded-Extends g)
