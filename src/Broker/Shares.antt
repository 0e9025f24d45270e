-- ===== src/Broker/Shares.antt =====
-- What a call under one certificate does to the buckets of the others.
use relops_bootstrap.Prelude.{
  ◌≤◌, ◌≡◌, refl, true, false, Option, none, some, [], ◌∷◌, Text, text_eq, text_eq→eq, text_eq_refl,
  length, ltb, ltb→ge, Bool-cases, inl, inr, if◌then◌else◌,
}
use relops_bootstrap.Broker.Limiter.{
  Float, Bucket, Buckets, Limits, idle_gc_seconds, is_stale, drop_stale, gc, lookup, store, or_full,
  take_tokens, consume,
}

-- Each key stands once.
abbrev pub IsDict : Buckets → Type 0
IsDict [] = Unit {0}
IsDict ((k, b) ∷ bs) = (lookup k bs ≡ none) × IsDict bs

lookup-store_other :
    (key other : Text) (new : Bucket) (bs : Buckets)
    → text_eq other key ≡ false
    → lookup other (store key new bs) ≡ lookup other bs
unfolding lookup store
lookup-store_other key other new [] ne = rw ne refl
lookup-store_other key other new ((k, b) ∷ bs) ne = elim (Bool-cases (text_eq key k)) [
  | inl here ↦
      let apart : text_eq other k ≡ false = rw (← text_eq→eq key k here) ne in rw (here, apart) refl
  | inr there ↦ rw (there, lookup-store_other key other new bs ne) refl
]

lookup-store : (key : Text) (new : Bucket) (bs : Buckets) → lookup key (store key new bs) ≡ some new
unfolding lookup store
lookup-store key new [] = rw (text_eq_refl key) refl
lookup-store key new ((k, b) ∷ bs) = elim (Bool-cases (text_eq key k)) [
  | inl here ↦ rw (here, here) refl
  | inr there ↦ rw (there, there, lookup-store key new bs) refl
]

text_eq_comm-false : (s t : Text) → text_eq s t ≡ false → text_eq t s ≡ false
text_eq_comm-false s t ne = elim (Bool-cases (text_eq t s)) [
  | inl same ↦
      let again : text_eq s t ≡ true = rw (text_eq→eq t s same) (text_eq_refl s) in absurd (cc)
  | inr other ↦ other
]

store-IsDict : (key : Text) (new : Bucket) (bs : Buckets) → IsDict bs → IsDict (store key new bs)
unfolding store lookup
store-IsDict key new [] d = (refl, tt)
store-IsDict key new ((k, b) ∷ bs) (once, d) = elim (Bool-cases (text_eq key k)) [
  | inl here ↦ rw here (once, d)
  | inr there ↦
      let apart = lookup-store_other key k new bs (text_eq_comm-false key k there) in
      rw there (rw apart once, store-IsDict key new bs d)
]

module _ (lim : Limits) (now : Float) where
  -- What is left of a bucket after the stale ones are dropped.
  abbrev survived : Option Bucket → Option Bucket
  survived none = none
  survived (some b) = if is_stale lim now b then none else some b

  lookup-drop_stale :
      (key : Text) (bs : Buckets)
      → IsDict bs
      → lookup key (drop_stale lim now bs) ≡ survived (lookup key bs)
  unfolding lookup drop_stale
  lookup-drop_stale key [] d = refl
  lookup-drop_stale key ((k, b) ∷ bs) (once, d) =
      let rest = lookup-drop_stale key bs d in
      elim (Bool-cases (text_eq key k)) [
        | inl here ↦
            let absent : lookup key bs ≡ none = rw (text_eq→eq key k here) once in
            elim (Bool-cases (is_stale lim now b)) [
              | inl stale ↦ rw (here, stale, rest, absent) refl
              | inr fresh ↦ rw (here, fresh, here) refl
            ]
        | inr there ↦ elim (Bool-cases (is_stale lim now b)) [
          | inl stale ↦ rw (there, stale, rest) refl
          | inr fresh ↦ rw (there, fresh, there, rest) refl
        ]
      ]

  drop_stale-IsDict : (bs : Buckets) → IsDict bs → IsDict (drop_stale lim now bs)
  unfolding drop_stale
  drop_stale-IsDict [] d = tt
  drop_stale-IsDict ((k, b) ∷ bs) (once, d) = elim (Bool-cases (is_stale lim now b)) [
    | inl stale ↦ rw stale (drop_stale-IsDict bs d)
    | inr fresh ↦
        let absent : lookup k (drop_stale lim now bs) ≡ none =
          rw (lookup-drop_stale k bs d, once) refl in
        rw fresh (absent, drop_stale-IsDict bs d)
  ]

  -- A bucket is as it was; or there were 1024 buckets or more, it had been idle for more than 600
  -- seconds, and it is gone.
  pub data IsLeft (before : Buckets) : Option Bucket → Option Bucket → Type 0 where
    untouched : {o : Option Bucket} → IsLeft before o o
    collected :
        {b : Bucket}
        → 1024 ≤ length before
        → lim.floats.less b.last_refill (lim.floats.sub now (lim.floats.of_int 600)) ≡ true
        → IsLeft before (some b) none

  survived-IsLeft :
      (before : Buckets) (o : Option Bucket) → 1024 ≤ length before → IsLeft before o (survived o)
  unfolding is_stale idle_gc_seconds
  survived-IsLeft before none many = untouched
  survived-IsLeft before (some b) many = elim (Bool-cases (is_stale lim now b)) [
    | inl stale ↦ rw stale (collected many stale)
    | inr fresh ↦ rw fresh untouched
  ]

  gc-IsLeft :
      (key : Text) (bs : Buckets)
      → IsDict bs
      → IsLeft bs (lookup key bs) (lookup key (gc lim now bs)) × IsDict (gc lim now bs)
  unfolding gc
  gc-IsLeft key bs d = elim (Bool-cases (ltb (length bs) 1024)) [
    | inl few ↦ rw few (untouched, d)
    | inr many ↦
        rw (many, lookup-drop_stale key bs d)
          (survived-IsLeft bs (lookup key bs) (ltb→ge _ _ many), drop_stale-IsDict bs d)
  ]

-- A call of `consume` under one key, allowed or not, leaves the bucket of every other key as it was, or,
-- where there were 1024 buckets or more and that one had been idle for more than 600 seconds, drops it;
-- and the buckets, each key of which stood once, are such again, with one for the key.
pub consume-IsLeft :
    (lim : Limits) (now tokens : Float) (key other : Text) (bs : Buckets)
    → IsDict bs
    → text_eq other key ≡ false
    → (let after = (consume lim now key tokens bs).1 in
        IsLeft lim now bs (lookup other bs) (lookup other after)
        × IsDict after
        × ((b : Bucket) × (lookup key after ≡ some b)))
unfolding consume
consume-IsLeft lim now tokens key other bs d ne =
    let kept = gc lim now bs in
    let (left, dict) = gc-IsLeft lim now other bs d in
    let new = (take_tokens lim now tokens (or_full lim now (lookup key kept))).1 in
    (
      rw (lookup-store_other key other new kept ne) left,
      store-IsDict key new kept dict,
      (new, lookup-store key new kept),
    )
