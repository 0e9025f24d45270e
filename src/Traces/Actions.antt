-- ===== src/Traces/Actions.antt =====
-- Actions over a log of events, the latest first: the world answers each call from the log so far,
-- and a call that was made stays in the log when the action fails.
use relops_bootstrap.Prelude.{Bool, List, ◌∷◌, if◌then◌else◌}

pub data Outcome (F A : Type 0) : Type 0 where
  returned : A → Outcome F A
  raised : F → Outcome F A

abbrev pub Act : Type 0 → Type 0 → Type 0 → Type 0 → Type 0
Act W E F A = W → List E → Outcome F A × List E

module _ {W E F A : Type 0} where
  unfoldable pub pure : A → Act W E F A
  pure a w l = (returned a, l)

  unfoldable pub raise : F → Act W E F A
  raise f w l = (raised f, l)

  -- What the world holds fixed.
  unfoldable pub ask : (W → A) → Act W E F A
  ask f w l = (returned (f w), l)

  -- One call: the answer, and the event that records it.
  unfoldable pub call : (W → List E → A) → (A → E) → Act W E F A
  call f event w l = let a = f w l in (returned a, event a ∷ l)

  abbrev pub handle : Outcome F A → (F → Act W E F A) → Act W E F A
  handle (returned a) f w l = (returned a, l)
  handle (raised e) f w l = f e w l

  -- `try: … except Exception as e: …`
  unfoldable pub catch : Act W E F A → (F → Act W E F A) → Act W E F A
  catch m f w l = let (r, l') = m w l in handle r f w l'

module _ {W E F A B : Type 0} where
  abbrev pub continue : Outcome F A → (A → Act W E F B) → Act W E F B
  continue (returned a) f w l = f a w l
  continue (raised e) f w l = (raised e, l)

  infixl 10 ◌>>=◌ ◌>>◌
  unfoldable pub ◌>>=◌ : Act W E F A → (A → Act W E F B) → Act W E F B
  ◌>>=◌ m f w l = let (r, l') = m w l in continue r f w l'

  abbrev pub ◌>>◌ : Act W E F A → Act W E F B → Act W E F B
  m >> n = m >>= λ _. n

module _ {W E F : Type 0} where
  unfoldable pub done : Act W E F (Unit {0})
  unfolding pure
  done = pure tt

  -- `if b: m`
  unfoldable pub when : Bool → Act W E F (Unit {0}) → Act W E F (Unit {0})
  unfolding done
  when b m = if b then m else done
