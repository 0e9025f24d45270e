-- ===== src/Health/Uptimes.antt =====
-- `_etime_s` reads the times that `ps` writes.
use relops_bootstrap.Prelude.{
  ℕ, ◌+◌, ◌*◌, ◌/◌, ◌%◌, ◌<◌, ◌≡◌, refl, ap, ◌∙◌, none, some, [], ◌∷◌, ◌++◌, Text, is_empty,
  partition, partition-append, decimal, arith,
}
use relops_bootstrap.Health.Parsers.{to_front, split, clock_s, days_s, etime_s}
use relops_bootstrap.Health.Digits.{
  two, number-two, is_digits-two, colon-ascii, append-some, differs-ascii, number-decimal,
  decimal-lacks, is_digits-decimal,
}

-- `mm:ss`, `hh:mm:ss` and `dd-hh:mm:ss`, as `ps -o etime` writes them.
abbrev pub minutes_text : ℕ → ℕ → Text
minutes_text m s = two m ++ (b':' ∷ two s)

abbrev pub hours_text : ℕ → ℕ → ℕ → Text
hours_text h m s = two h ++ (b':' ∷ minutes_text m s)

abbrev pub days_text : ℕ → ℕ → ℕ → ℕ → Text
days_text d h m s = decimal d ++ (b'-' ∷ hours_text h m s)

-- The parts of a clock.
split-two : (n : ℕ) → n < 100 → split b':' (two n) ≡ two n ∷ []
unfolding split to_front
split-two n small = rw (colon-ascii (n / 10) (omega arith), colon-ascii (n % 10) (omega arith)) refl

split-two_more :
    (n : ℕ) (s : Text) → n < 100 → split b':' (two n ++ (b':' ∷ s)) ≡ two n ∷ split b':' s
unfolding split to_front
split-two_more n s small =
    rw (colon-ascii (n / 10) (omega arith), colon-ascii (n % 10) (omega arith)) refl

split-minutes : (m s : ℕ) → m < 100 → s < 100 → split b':' (minutes_text m s) ≡ two m ∷ two s ∷ []
split-minutes m s hm hs = split-two_more m (two s) hm ∙ ap (λ l. two m ∷ l) (split-two s hs)

split-hours :
    (h m s : ℕ)
    → h < 100
    → m < 100
    → s < 100
    → split b':' (hours_text h m s) ≡ two h ∷ two m ∷ two s ∷ []
split-hours h m s hh hm hs =
    split-two_more h (minutes_text m s) hh ∙ ap (λ l. two h ∷ l) (split-minutes m s hm hs)

-- A clock has no dash.
partition-two :
    (n : ℕ) (s : Text)
    → n < 100
    → partition b'-' s ≡ (s, none)
    → partition b'-' (two n ++ s) ≡ (two n ++ s, none)
unfolding partition
partition-two n s small h =
    rw (differs-ascii b'-' (n / 10) (omega arith), differs-ascii b'-' (n % 10) (omega arith), h)
      refl

partition-clock :
    (n : ℕ) (s : Text)
    → n < 100
    → partition b'-' s ≡ (s, none)
    → partition b'-' (two n ++ (b':' ∷ s)) ≡ (two n ++ (b':' ∷ s), none)
unfolding partition
partition-clock n s small h = partition-two n (b':' ∷ s) small (rw h refl)

partition-minutes :
    (m s : ℕ) → m < 100 → s < 100 → partition b'-' (minutes_text m s) ≡ (minutes_text m s, none)
unfolding partition
partition-minutes m s hm hs = partition-clock m (two s) hm (partition-two s [] hs refl)

etime_s-minutes : (m s : ℕ) → m < 100 → s < 100 → etime_s (minutes_text m s) ≡ some (m * 60 + s)
unfolding etime_s days_s clock_s is_empty
etime_s-minutes m s hm hs =
    rw
      (
        partition-minutes m s hm hs,
        split-minutes m s hm hs,
        is_digits-two m hm,
        is_digits-two s hs,
        number-two m hm,
        number-two s hs,
      )
      (ap some (omega arith))

etime_s-hours :
    (h m s : ℕ)
    → h < 100
    → m < 100
    → s < 100
    → etime_s (hours_text h m s) ≡ some (h * 3600 + m * 60 + s)
unfolding etime_s days_s clock_s is_empty
etime_s-hours h m s hh hm hs =
    rw
      (
        partition-clock h (minutes_text m s) hh (partition-minutes m s hm hs),
        split-hours h m s hh hm hs,
        is_digits-two h hh,
        is_digits-two m hm,
        is_digits-two s hs,
        number-two h hh,
        number-two m hm,
        number-two s hs,
      )
      (ap some (omega arith))

etime_s-days :
    (d h m s : ℕ)
    → h < 100
    → m < 100
    → s < 100
    → etime_s (days_text d h m s) ≡ some (d * 86400 + h * 3600 + m * 60 + s)
unfolding etime_s days_s clock_s
etime_s-days d h m s hh hm hs =
    rw
      (
        append-some (decimal d) b'-' (hours_text h m s),
        partition-append b'-' (decimal d) (hours_text h m s) (decimal-lacks b'-' d (omega arith)),
        is_digits-decimal d,
        split-hours h m s hh hm hs,
        is_digits-two h hh,
        is_digits-two m hm,
        is_digits-two s hs,
        number-decimal d,
        number-two h hh,
        number-two m hm,
        number-two s hs,
      )
      refl

-- The times that `ps` writes, `mm:ss`, `hh:mm:ss` and, with any number d of days, `dd-hh:mm:ss`, each
-- part but the days below 100 and in two digits, are read by `_etime_s` as their number of seconds.
pub etime_s-ps :
    (d h m s : ℕ)
    → h < 100
    → m < 100
    → s < 100
    → (etime_s (minutes_text m s) ≡ some (m * 60 + s))
      × (etime_s (hours_text h m s) ≡ some (h * 3600 + m * 60 + s))
      × (etime_s (days_text d h m s) ≡ some (d * 86400 + h * 3600 + m * 60 + s))
etime_s-ps d h m s hh hm hs =
    (etime_s-minutes m s hm hs, etime_s-hours h m s hh hm hs, etime_s-days d h m s hh hm hs)
