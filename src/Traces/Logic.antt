-- ===== src/Traces/Logic.antt =====
-- What holds after an action: `Q` of its result if it returns, `R` of its failure if it raises.
use relops_bootstrap.Prelude.{◌≡◌, refl, Bool, true, false, List, ◌∷◌, if◌then◌else◌}
use relops_bootstrap.Traces.Actions.{
  Act, Outcome, returned, raised, pure, raise, ask, call, continue, ◌>>=◌, handle, catch, done,
  when,
}

module _ {E F A : Type 0} where
  abbrev pub Post : (A → List E → Type 0) → (F → List E → Type 0) → Outcome F A → List E → Type 0
  Post Q R (returned a) l = Q a l
  Post Q R (raised e) l = R e l

  pub Post-weaken :
      {Q Q' : A → List E → Type 0} {R R' : F → List E → Type 0}
      → ((a : A) (l : List E) → Q a l → Q' a l)
      → ((e : F) (l : List E) → R e l → R' e l)
      → (r : Outcome F A) (l : List E) → Post Q R r l
      → Post Q' R' r l
  Post-weaken fq fr (returned a) l p = fq a l p
  Post-weaken fq fr (raised e) l p = fr e l p

pub record Meets {W E F A : Type 0} (w : W) (P : List E → Type 0) (m : Act W E F A)
    (Q : A → List E → Type 0) (R : F → List E → Type 0) : Type 0 where
  pub at : (l : List E) → P l → Post Q R (m w l).0 (m w l).1

module _ {W E F A : Type 0} {w : W} {Q : A → List E → Type 0} {R : F → List E → Type 0} where
  Post-handle :
      (R' : F → List E → Type 0) (r : Outcome F A) (f : F → Act W E F A) (l : List E)
      → ((e : F) → Meets w (R' e) (f e) Q R)
      → Post Q R' r l
      → Post Q R (handle r f w l).0 (handle r f w l).1
  Post-handle R' (returned a) f l gf q = q
  Post-handle R' (raised e) f l gf q = (gf e).at l q

module _ {W E F A B : Type 0} {w : W} (Q : A → List E → Type 0) {Q' : B → List E → Type 0}
    {R : F → List E → Type 0} where
  Post-continue :
      (r : Outcome F A) (f : A → Act W E F B) (l : List E)
      → ((a : A) → Meets w (Q a) (f a) Q' R)
      → Post Q R r l
      → Post Q' R (continue r f w l).0 (continue r f w l).1
  Post-continue (returned a) f l gf q = (gf a).at l q
  Post-continue (raised e) f l gf q = q

module _ {W E F A : Type 0} {w : W} {P : List E → Type 0} {Q : A → List E → Type 0}
    {R : F → List E → Type 0} where
  pub Meets-pure : (a : A) → ((l : List E) → P l → Q a l) → Meets w P (pure a) Q R
  unfolding pure
  Meets-pure a step = record { at = step }

  pub Meets-raise : (f : F) → ((l : List E) → P l → R f l) → Meets w P (raise f) Q R
  unfolding raise
  Meets-raise f step = record { at = step }

  pub Meets-ask : (f : W → A) → ((l : List E) → P l → Q (f w) l) → Meets w P (ask f) Q R
  unfolding ask
  Meets-ask f step = record { at = step }

  pub Meets-call :
      (f : W → List E → A) (event : A → E)
      → ((l : List E) → P l → Q (f w l) (event (f w l) ∷ l))
      → Meets w P (call f event) Q R
  unfolding call
  Meets-call f event step = record { at = step }

  pub Meets-if :
      (b : Bool) (m n : Act W E F A)
      → (b ≡ true → Meets w P m Q R)
      → (b ≡ false → Meets w P n Q R)
      → Meets w P (if b then m else n) Q R
  Meets-if true m n gm gn = gm refl
  Meets-if false m n gm gn = gn refl

  pub Meets-catch :
      (R' : F → List E → Type 0) (m : Act W E F A) (f : F → Act W E F A)
      → Meets w P m Q R'
      → ((e : F) → Meets w (R' e) (f e) Q R)
      → Meets w P (catch m f) Q R
  unfolding catch
  Meets-catch R' m f gm gf = record {
    at = λ l p. Post-handle R' (m w l).0 f (m w l).1 gf (gm.at l p);
  }

  pub Meets-weaken :
      {P' : List E → Type 0} {Q' : A → List E → Type 0} {R' : F → List E → Type 0} {m : Act W E F A}
      → ((l : List E) → P' l → P l)
      → ((a : A) (l : List E) → Q a l → Q' a l)
      → ((e : F) (l : List E) → R e l → R' e l)
      → Meets w P m Q R
      → Meets w P' m Q' R'
  Meets-weaken {m} fp fq fr gm = record {
    at = λ l p. Post-weaken fq fr (m w l).0 (m w l).1 (gm.at l (fp l p));
  }

module _ {W E F A B : Type 0} {w : W} {P : List E → Type 0} (Q : A → List E → Type 0)
    {Q' : B → List E → Type 0} {R : F → List E → Type 0} where
  pub Meets-bind :
      (m : Act W E F A) (f : A → Act W E F B)
      → Meets w P m Q R
      → ((a : A) → Meets w (Q a) (f a) Q' R)
      → Meets w P (m >>= f) Q' R
  unfolding ◌>>=◌
  Meets-bind m f gm gf = record { at = λ l p. Post-continue Q (m w l).0 f (m w l).1 gf (gm.at l p) }

-- What the world holds fixed is known to the rest of a block.
pub Meets-asked :
    {W E F A B : Type 0} {w : W} {P : List E → Type 0} {Q : B → List E → Type 0}
    {R : F → List E → Type 0} (g : W → A) (f : A → Act W E F B)
    → Meets w P (f (g w)) Q R
    → Meets w P (ask g >>= f) Q R
unfolding ask ◌>>=◌
Meets-asked g f gf = record { at = gf.at }

pub Meets-done :
    {W E F : Type 0} {w : W} {P : List E → Type 0} {Q : Unit {0} → List E → Type 0}
    {R : F → List E → Type 0}
    → ((l : List E) → P l → Q tt l)
    → Meets w P done Q R
unfolding done
Meets-done step = Meets-pure tt step

pub Meets-when :
    {W E F : Type 0} {w : W} {P : List E → Type 0} {Q : Unit {0} → List E → Type 0}
    {R : F → List E → Type 0} (b : Bool) (m : Act W E F (Unit {0}))
    → (b ≡ true → Meets w P m Q R)
    → (b ≡ false → (l : List E) → P l → Q tt l)
    → Meets w P (when b m) Q R
unfolding when
Meets-when b m gm step = Meets-if b m done gm (λ e. Meets-done (step e))

-- The action keeps `P`, whether it returns or raises.
abbrev pub Holds : {W E F A : Type 0} → W → (List E → Type 0) → Act W E F A → Type 0
Holds w P m = Meets w P m (λ a. P) (λ e. P)

-- What holds after an action whichever way it ends.
Post-either :
    {E F A : Type 0} (Q : List E → Type 0) (r : Outcome F A) (l : List E)
    → Post (λ a. Q) (λ e. Q) r l
    → Q l
Post-either Q (returned a) l q = q
Post-either Q (raised e) l q = q

pub after :
    {W E F A : Type 0} {w : W} {P Q : List E → Type 0} (m : Act W E F A)
    → Meets w P m (λ a. Q) (λ e. Q)
    → (l : List E) → P l
    → Q (m w l).1
after {w} {Q} m gm l p = Post-either Q (m w l).0 (m w l).1 (gm.at l p)

-- Each event since `start` is one of `Q`, given the log below it.
pub data Since {E : Type 0} (Q : E → List E → Type 0) (start : List E) : List E → Type 0 where
  at_start : Since Q start start
  next : {e : E} {l : List E} → Q e l → Since Q start l → Since Q start (e ∷ l)

-- Events that are one of `Q` were added to `start`, and others before and after them.
pub data Added {E : Type 0} (Q : E → Type 0) (start : List E) : List E → Type 0 where
  here : {e : E} {l : List E} → Q e → Since (λ e l. Unit {0}) start l → Added Q start (e ∷ l)
  there : {e : E} {l : List E} → Added Q start l → Added Q start (e ∷ l)

pub Since-map :
    {E : Type 0} {Q Q' : E → List E → Type 0} {start l : List E}
    → ((e : E) (l : List E) → Q e l → Q' e l)
    → Since Q start l
    → Since Q' start l
Since-map f at_start = at_start
Since-map f (next q s) = next (f _ _ q) (Since-map f s)
