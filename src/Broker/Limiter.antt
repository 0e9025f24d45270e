-- ===== src/Broker/Limiter.antt =====
-- `RateLimiter` (replay_cache.py). The clock and the tokens are Python's floats: they stand as their
-- bits, and the arithmetic on them is a parameter.
use relops_bootstrap.Prelude.{
  ℕ, Bool, true, false, Option, none, some, List, [], ◌∷◌, Text, text_eq, length, ltb,
  if◌then◌else◌,
}

-- The 64 bits of a float.
abbrev pub Float : Type 0
Float = ℕ

-- `float(n)`, `+`, `-`, `*`, `/`, `<` and `>=`.
pub record Floats : Type 0 where
  pub of_int : ℕ → Float
  pub add : Float → Float → Float
  pub sub : Float → Float → Float
  pub mul : Float → Float → Float
  pub div : Float → Float → Float
  pub less : Float → Float → Bool
  pub at_least : Float → Float → Bool

-- `_Bucket`
pub record Bucket : Type 0 where
  pub tokens : Float
  pub last_refill : Float

-- `_buckets`, a dict in the order of insertion.
abbrev pub Buckets : Type 0
Buckets = List (Text × Bucket)

-- What the constructor was given, and the arithmetic.
pub record Limits : Type 0 where
  pub requests_per_minute : ℕ
  pub burst : ℕ
  pub floats : Floats

-- `self._burst`, as a float.
unfoldable pub full : Limits → Float
full lim = lim.floats.of_int lim.burst

-- `_refill_rate`
unfoldable pub refill_rate : Limits → Float
refill_rate lim = lim.floats.div (lim.floats.of_int lim.requests_per_minute) (lim.floats.of_int 60)

-- `_idle_gc_seconds`
unfoldable pub idle_gc_seconds : Limits → Float
idle_gc_seconds lim = lim.floats.of_int 600

-- `b.last_refill < now - self._idle_gc_seconds`
unfoldable pub is_stale : Limits → Float → Bucket → Bool
unfolding idle_gc_seconds
is_stale lim now b = lim.floats.less b.last_refill (lim.floats.sub now (idle_gc_seconds lim))

unfoldable pub drop_stale : Limits → Float → Buckets → Buckets
unfolding is_stale
drop_stale lim now [] = []
drop_stale lim now ((k, b) ∷ bs) =
    let rest = drop_stale lim now bs in if is_stale lim now b then rest else (k, b) ∷ rest

-- `_gc`
unfoldable pub gc : Limits → Float → Buckets → Buckets
unfolding drop_stale
gc lim now bs = if ltb (length bs) 1024 then bs else drop_stale lim now bs

-- `self._buckets.get(key)`
unfoldable pub lookup : Text → Buckets → Option Bucket
lookup key [] = none
lookup key ((k, b) ∷ bs) = if text_eq key k then some b else lookup key bs

-- `self._buckets[key] = bucket`
unfoldable pub store : Text → Bucket → Buckets → Buckets
store key new [] = (key, new) ∷ []
store key new ((k, b) ∷ bs) =
    let rest = store key new bs in if text_eq key k then (k, new) ∷ bs else (k, b) ∷ rest

-- The bucket for the key, a full one where there is none.
unfoldable pub or_full : Limits → Float → Option Bucket → Bucket
unfolding full
or_full lim now none = record { tokens = full lim; last_refill = now }
or_full lim now (some b) = b

-- `min(a, b)`
unfoldable pub min_float : Floats → Float → Float → Float
min_float f a b = if f.less b a then b else a

-- `min(self._burst, bucket.tokens + elapsed * self._refill_rate)`
unfoldable pub refilled : Limits → Float → Bucket → Float
unfolding full refill_rate min_float
refilled lim now b =
    let f = lim.floats in
    min_float f (full lim) (f.add b.tokens (f.mul (f.sub now b.last_refill) (refill_rate lim)))

-- The refill, and the test for the tokens.
unfoldable pub take_tokens : Limits → Float → Float → Bucket → Bool × Bucket
unfolding refilled
take_tokens lim now tokens b =
    let there = refilled lim now b in
    if lim.floats.at_least there tokens
    then (true, record { tokens = lim.floats.sub there tokens; last_refill = now })
    else (false, record { tokens = there; last_refill = now })

-- `consume`
unfoldable pub consume : Limits → Float → Text → Float → Buckets → Bool × Buckets
unfolding gc lookup or_full take_tokens store
consume lim now key tokens buckets =
    let kept = gc lim now buckets in
    let (allowed, b) = take_tokens lim now tokens (or_full lim now (lookup key kept)) in
    (allowed, store key b kept)
