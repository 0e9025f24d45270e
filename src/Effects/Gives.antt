-- ===== src/Effects/Gives.antt =====
-- What holds after an action: `Q` of its result if it returns, `R` if it raises. And what was once
-- the case in a history.
use relops_bootstrap.Prelude.{◌≡◌, refl, subst, Bool, true, false, ◌∷◌, if◌then◌else◌}
use relops_bootstrap.Effects.Calls.{World, History, Event, Result, ok, err, Failure}
use relops_bootstrap.Effects.Actions.{Exec, pure, raise, ask, continue, ◌>>=◌, handle, catch, done}
use relops_bootstrap.Effects.Keeps.{Keeps, IsStable}

abbrev pub Post :
    {A : Type 0} → (A → History → Type 0) → (History → Type 0) → Result A → History → Type 0
Post Q R (ok a) h = Q a h
Post Q R (err e) h = R h

pub record Gives {A : Type 0} (w : World) (P : History → Type 0) (m : Exec A)
    (Q : A → History → Type 0) (R : History → Type 0) : Type 0 where
  pub at : (h : History) → P h → Post Q R (m w h).0 (m w h).1

Post-keeps :
    {A : Type 0} (Q : A → History → Type 0) (R : History → Type 0) (r : Result A) (h : History)
    → ((a : A) → Q a h)
    → R h
    → Post Q R r h
Post-keeps Q R (ok a) h q r = q a
Post-keeps Q R (err e) h q r = r

Post-weaken :
    {R R' : History → Type 0} {A : Type 0} (Q : A → History → Type 0)
    → ((h : History) → R' h → R h)
    → (r : Result A) (h : History) → Post Q R' r h
    → Post Q R r h
Post-weaken Q weaker (ok a) h q = q
Post-weaken Q weaker (err e) h q = weaker h q

Post-handle :
    {R : History → Type 0} {A : Type 0} {Q : A → History → Type 0} (w : World)
    (R' : History → Type 0) (r : Result A) (f : Failure → Exec A) (h : History)
    → ((e : Failure) → Gives w R' (f e) Q R)
    → Post Q R' r h
    → Post Q R (handle r f w h).0 (handle r f w h).1
Post-handle w R' (ok a) f h gf q = q
Post-handle w R' (err e) f h gf q = (gf e).at h q

pub Post-continue :
    {R : History → Type 0} {A B : Type 0} {Q' : B → History → Type 0} (w : World)
    (Q : A → History → Type 0) (r : Result A) (f : A → Exec B) (h : History)
    → ((a : A) → Gives w (Q a) (f a) Q' R)
    → Post Q R r h
    → Post Q' R (continue r f w h).0 (continue r f w h).1
Post-continue w Q (ok a) f h gf q = (gf a).at h q
Post-continue w Q (err e) f h gf q = q

module _ {w : World} {P R : History → Type 0} {A : Type 0} {Q : A → History → Type 0} where
  pub Gives-pure : (a : A) → ((h : History) → P h → Q a h) → Gives w P (pure a) Q R
  unfolding pure
  Gives-pure a step = record { at = step }

  pub Gives-raise : (f : Failure) → ((h : History) → P h → R h) → Gives w P (raise f) Q R
  unfolding raise
  Gives-raise f step = record { at = step }

  pub Gives-if :
      (b : Bool) (m n : Exec A)
      → (b ≡ true → Gives w P m Q R)
      → (b ≡ false → Gives w P n Q R)
      → Gives w P (if b then m else n) Q R
  Gives-if true m n gm gn = gm refl
  Gives-if false m n gm gn = gn refl

  pub Gives-keeps :
      (m : Exec A)
      → Keeps w P m
      → ((a : A) (h : History) → P h → Q a h)
      → ((h : History) → P h → R h)
      → Gives w P m Q R
  Gives-keeps m km q r = record {
    at = λ h p. Post-keeps Q R (m w h).0 (m w h).1 (λ a. q a _ (km.at h p)) (r _ (km.at h p));
  }

  pub Gives-catch :
      (m : Exec A) (f : Failure → Exec A) (R' : History → Type 0)
      → Gives w P m Q R'
      → ((e : Failure) → Gives w R' (f e) Q R)
      → Gives w P (catch m f) Q R
  unfolding catch
  Gives-catch m f R' gm gf = record {
    at = λ h p. Post-handle w R' (m w h).0 f (m w h).1 gf (gm.at h p);
  }

module _ {w : World} {P R : History → Type 0} {A B : Type 0} (Q : A → History → Type 0)
    {Q' : B → History → Type 0} where
  pub Gives-bind :
      (m : Exec A) (f : A → Exec B)
      → Gives w P m Q R
      → ((a : A) → Gives w (Q a) (f a) Q' R)
      → Gives w P (m >>= f) Q' R
  unfolding ◌>>=◌
  Gives-bind m f gm gf = record {
    at = λ h p. Post-continue w Q (m w h).0 f (m w h).1 gf (gm.at h p);
  }

-- At some moment of the history the property held of what had happened by then.
pub data Past (Q : History → Type 0) : History → Type 0 where
  now : {h : History} → Q h → Past Q h
  later : (e : Event) {h : History} → Past Q h → Past Q (e ∷ h)

pub Past-map :
    {Q Q' : History → Type 0} → ((h : History) → Q h → Q' h) → {h : History} → Past Q h → Past Q' h
Past-map step (now q) = now (step _ q)
Past-map step (later e p) = later e (Past-map step p)

pub Past-IsStable : {Q : History → Type 0} → IsStable (Past Q)
Past-IsStable = record { after = λ e h harmless p. later e p }

-- The rest of a block goes on from what the action kept.
pub Gives-after :
    {w : World} {P R : History → Type 0} {A B : Type 0} {Q : B → History → Type 0} (m : Exec A)
    (f : A → Exec B)
    → Keeps w P m
    → ((h : History) → P h → R h)
    → ((a : A) → Gives w P (f a) Q R)
    → Gives w P (m >>= f) Q R
Gives-after {P} m f km weaker gf = Gives-bind (λ a. P) m f (Gives-keeps m km (λ a h p. p) weaker) gf

pub Gives-done :
    {w : World} {P R : History → Type 0} {Q : Unit {0} → History → Type 0}
    → ((h : History) → P h → Q tt h)
    → Gives w P done Q R
unfolding done
Gives-done step = record { at = step }

pub Gives-weaken :
    {w : World} {P R R' : History → Type 0} {A : Type 0} {Q : A → History → Type 0} {m : Exec A}
    → ((h : History) → R' h → R h)
    → Gives w P m Q R'
    → Gives w P m Q R
Gives-weaken {w} {Q} {m} weaker gm = record {
  at = λ h p. Post-weaken Q weaker (m w h).0 (m w h).1 (gm.at h p);
}

-- An action that ends in `P` whichever way keeps `P`.
pub Post-same :
    {A : Type 0} (P : History → Type 0) (r : Result A) (h : History) → Post (λ a. P) P r h → P h
Post-same P (ok a) h q = q
Post-same P (err e) h q = q

pub Gives-Keeps :
    {w : World} {P : History → Type 0} {A : Type 0} {m : Exec A}
    → Gives w P m (λ a. P) P
    → Keeps w P m
Gives-Keeps {w} {P} {m} gm = record { at = λ h p. Post-same P (m w h).0 (m w h).1 (gm.at h p) }

-- What holds before may be more, and what holds of the result less.
pub Post-map :
    (R : History → Type 0) {A : Type 0} {Q Q' : A → History → Type 0}
    → ((a : A) (h : History) → Q a h → Q' a h)
    → (r : Result A) (h : History) → Post Q R r h
    → Post Q' R r h
Post-map R f (ok a) h q = f a h q
Post-map R f (err e) h q = q

pub Gives-map :
    {w : World} {P P' R : History → Type 0} {A : Type 0} {Q Q' : A → History → Type 0} {m : Exec A}
    → ((h : History) → P' h → P h)
    → ((a : A) (h : History) → Q a h → Q' a h)
    → Gives w P m Q R
    → Gives w P' m Q' R
Gives-map {w} {R} {m} p q gm = record {
  at = λ h x. Post-map R q (m w h).0 (m w h).1 (gm.at h (p h x));
}

-- What is known of a run that returned.
pub Post-ok :
    (R : History → Type 0) {A : Type 0} (Q : A → History → Type 0) (a : A) (r : Result A × History)
    (h : History)
    → r ≡ (ok a, h)
    → Post Q R r.0 r.1
    → Q a h
Post-ok R Q a r h e q = subst (λ x. Post Q R x.0 x.1) e q

-- What the world holds fixed is known to the rest of a block.
pub Gives-asked :
    {w : World} {P R : History → Type 0} {A B : Type 0} {Q : B → History → Type 0} (g : World → A)
    (f : A → Exec B)
    → Gives w P (f (g w)) Q R
    → Gives w P (ask g >>= f) Q R
unfolding ask ◌>>=◌
Gives-asked g f gf = record { at = gf.at }

-- A fact that does not speak of the history is a hypothesis.
pub Gives-given :
    {w : World} {X : Type 0} {P R : History → Type 0} {A : Type 0} {Q : A → History → Type 0}
    {m : Exec A}
    → ((h : History) → X → P h)
    → (X → Gives w P m Q R)
    → Gives w (λ h. X) m Q R
Gives-given p gm = record { at = λ h x. (gm x).at h (p h x) }
