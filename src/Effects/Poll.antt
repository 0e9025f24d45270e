-- ===== src/Effects/Poll.antt =====
-- The wait loops: `while time.monotonic() < deadline: …; time.sleep(pause)`.
use relops_bootstrap.Prelude.{ℕ, zero, suc, ◌+◌, Option, none, some, ltb, if◌then◌else◌}
use relops_bootstrap.Effects.Calls.{out_of_fuel}
use relops_bootstrap.Effects.Actions.{Exec, pure, raise, monotonic, sleep, ◌>>=◌, ◌>>◌}

-- What a round of a loop gives: the loop's result (`break`), or the loop's variables.
pub data Round (A S : Type 0) : Type 0 where
  found : A → Round A S
  again : S → Round A S

module _ {A S : Type 0} (round : S → Exec (Round A S)) (deadline pause : ℕ) where
  -- `next` is the rest of the loop.
  unfoldable pub after_round : (S → Exec (Option A)) → Round A S → Exec (Option A)
  after_round next (found a) = pure (some a)
  after_round next (again s) = do sleep pause; next s

  unfoldable pub poll : ℕ → S → Exec (Option A)
  unfolding after_round
  poll zero s = raise out_of_fuel
  poll (suc fuel) s = do
    now ← monotonic
    if ltb now deadline then (do r ← round s; after_round (poll fuel) r) else pure none

-- `deadline = time.monotonic() + max_wait` and the loop; `none` if the deadline passed. Each round
-- sleeps at least a second where the pause is not 0, so one round more than seconds is enough fuel.
unfoldable pub poll_for : {A S : Type 0} → ℕ → ℕ → (S → Exec (Round A S)) → S → Exec (Option A)
unfolding poll
poll_for max_wait pause round s = do
  start ← monotonic
  poll round (start + max_wait) pause (suc max_wait) s
