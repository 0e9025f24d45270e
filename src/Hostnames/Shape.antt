-- ===== src/Hostnames/Shape.antt =====
-- What `validate_short` accepts: the names of the fleet, and nothing with a character that a shell,
-- Tcl or an argument list would read.
use mathlib.Core.List.{reverse-cons, map-append, append-nil}
use relops_bootstrap.Prelude.{
  ℕ, ◌≡◌, ◌≢◌, refl, ap, ◌∙◌, ◌⊎◌, inl, inr, Bool, true, false, not, ◌&&◌, some, [], ◌∷◌, ◌++◌, map,
  reverse, arith, Text, codes, starts_with, starts_with→eq, skip, strip, lower, is_space,
  strip_left, lower_char, all_of, ◌==◌, Bool-cases, Option-cases,
}
use relops_bootstrap.Hostnames.Defs.{
  is_decimal, skip_digits, digits, at_end, sub_index, numbers, m4_prefix, r8_prefix, matches_short,
  validate_short,
}

abbrev pub AreDigits : Text → Type 0
AreDigits ds = (ds ≢ []) × (all_of is_decimal ds ≡ true)

abbrev pub IsModel : Text → Type 0
IsModel m = (m ≡ m4_prefix) ⊎ (m ≡ r8_prefix)

-- `macmini-m4-<n>`, `macmini-r8-<n>`, or one of these with a further `-<n>`.
pub data IsWorkerName (s : Text) : Type 0 where
  plain : (m ds : Text) → IsModel m → AreDigits ds → s ≡ m ++ ds → IsWorkerName s
  indexed :
      (m ds es : Text)
      → IsModel m
      → AreDigits ds
      → AreDigits es
      → s ≡ m ++ (ds ++ (b'-' ∷ es))
      → IsWorkerName s

skip_digits-split :
    (s : Text) → (ds : Text) × (all_of is_decimal ds ≡ true) × (s ≡ ds ++ skip_digits s)
unfolding skip_digits
skip_digits-split [] = ([], refl, refl)
skip_digits-split (c ∷ s) = elim (Bool-cases (is_decimal c)) [
  | inl e ↦
      let (ds, h, eq) = skip_digits-split s in (c ∷ ds, rw e h, rw e (ap (λ (t : Text). c ∷ t) eq))
  | inr e ↦ ([], refl, rw e)
]

digits-split :
    (s rest : Text) → digits s ≡ some rest → (ds : Text) × AreDigits ds × (s ≡ ds ++ rest)
unfolding digits
digits-split [] rest h = absurd (cc)
digits-split (c ∷ s) rest h = elim (Bool-cases (is_decimal c)) [
  | inl e ↦
      let (ds, all, eq) = skip_digits-split s in (c ∷ ds, (λ z. cc, rw e all), ground (arith, eq))
  | inr e ↦ absurd (ground arith)
]

-- The last character, if there is one, is no newline.
last_ok : Text → Bool
last_ok [] = true
last_ok (c ∷ []) = not (c == 10)
last_ok (c ∷ d ∷ s) = last_ok (d ∷ s)

last_ok-append : (a b : Text) → last_ok (a ++ b) ≡ true → last_ok b ≡ true
unfolding last_ok
last_ok-append [] b h = h
last_ok-append (c ∷ []) [] h = refl
last_ok-append (c ∷ []) (d ∷ b) h = h
last_ok-append (c ∷ d ∷ a) b h = last_ok-append (d ∷ a) b h

last_ok-snoc : (a : Text) (c : ℕ) → c ≢ 10 → last_ok (a ++ (c ∷ [])) ≡ true
unfolding last_ok
last_ok-snoc [] c h = ground arith
last_ok-snoc (d ∷ []) c h = ground arith
last_ok-snoc (d ∷ e ∷ a) c h = last_ok-snoc (e ∷ a) c h

strip_left-cases :
    (s : Text)
    → (strip_left s ≡ []) ⊎ ((c : ℕ) × (r : Text) × (strip_left s ≡ c ∷ r) × (is_space c ≡ false))
unfolding strip_left
strip_left-cases [] = inl refl
strip_left-cases (c ∷ s) = elim (Bool-cases (is_space c)) [
  | inl e ↦ rw (e, strip_left) (strip_left-cases s)
  | inr e ↦ inr (c, s, rw e, e)
]

not_space→lower-ne_newline : (c : ℕ) → is_space c ≡ false → lower_char c ≢ 10
unfolding is_space lower_char
not_space→lower-ne_newline c h = ground arith

last_ok-lower-strip : (s : Text) → last_ok (lower (strip s)) ≡ true
unfolding strip lower
last_ok-lower-strip s = elim (strip_left-cases (reverse (strip_left s))) [
  | inl e ↦ rw e (unfold last_ok in refl)
  | inr (c, r, e, h) ↦
      rw (e, reverse-cons, map-append)
        (last_ok-snoc (map lower_char (reverse r)) (lower_char c) (not_space→lower-ne_newline c h))
]

at_end→nil : (s : Text) → at_end s ≡ true → last_ok s ≡ true → s ≡ []
unfolding at_end last_ok
at_end→nil [] h k = refl
at_end→nil (c ∷ []) h k = ground arith
at_end→nil (c ∷ d ∷ s) h k = cc

sub_index→digits :
    (s : Text)
    → sub_index s ≡ true
    → last_ok s ≡ true
    → (es : Text) × AreDigits es × (s ≡ b'-' ∷ es)
unfolding sub_index
sub_index→digits s h k = elim (Bool-cases (starts_with s (codes "-"))) [
  | inl e ↦ elim (Option-cases (digits (skip s (codes "-")))) [
    | inl n ↦ absurd (ground (arith, e, n))
    | inr (rest, n) ↦
        let (es, are, eq) = digits-split _ rest n in
        let whole : s ≡ (b'-' ∷ es) ++ rest =
          starts_with→eq s _ e ∙ ap (λ (t : Text). b'-' ∷ t) eq in
        let last : rest ≡ [] =
          at_end→nil rest (ground (arith, e, n))
            (last_ok-append (b'-' ∷ es) rest (rw whole at k)) in
        (es, are, whole ∙ ap (λ (t : Text). (b'-' ∷ es) ++ t) last ∙ append-nil (b'-' ∷ es))
  ]
  | inr e ↦ absurd (ground (arith, e))
]

-- After a prefix of the pattern.
numbers→IsWorkerName :
    (m s : Text) → IsModel m → numbers s ≡ true → last_ok s ≡ true → IsWorkerName (m ++ s)
unfolding numbers
numbers→IsWorkerName m s model h k = elim (Option-cases (digits s)) [
  | inl n ↦ absurd (ground (arith, n))
  | inr (rest, n) ↦
      let (ds, are, eq) = digits-split s rest n in
      let ok : last_ok rest ≡ true = last_ok-append ds rest (rw eq at k) in
      elim (Bool-cases (at_end rest)) [
        | inl e ↦ IsWorkerName.plain m ds model are (
            ap (λ (t : Text). m ++ t)
              (eq ∙ ap (λ (t : Text). ds ++ t) (at_end→nil rest e ok) ∙ append-nil ds))
        | inr e ↦
            let (es, ares, eqs) = sub_index→digits rest (ground (arith, n, e)) ok in
            IsWorkerName.indexed m ds es model are ares
              (ap (λ (t : Text). m ++ t) (eq ∙ ap (λ (t : Text). ds ++ t) eqs))
      ]
]

matches_short→IsWorkerName : (s : Text) → matches_short s ≡ true → last_ok s ≡ true → IsWorkerName s
unfolding matches_short
matches_short→IsWorkerName s h k =
    elim (Bool-cases (starts_with s m4_prefix && numbers (skip s m4_prefix))) [
      | inl e ↦
          let eq = starts_with→eq s m4_prefix (ground (arith, e)) in
          rw (← eq) at (
            numbers→IsWorkerName m4_prefix (skip s m4_prefix) (inl refl) (ground (arith, e))
              (last_ok-append m4_prefix (skip s m4_prefix) (rw eq at k)))
      | inr e ↦
          let eq = starts_with→eq s r8_prefix (ground (arith, e, h)) in
          rw (← eq) at (
            numbers→IsWorkerName r8_prefix (skip s r8_prefix) (inr refl) (ground (arith, e, h))
              (last_ok-append r8_prefix (skip s r8_prefix) (rw eq at k)))
    ]

validate_short→matches :
    (h s : Text) → validate_short h ≡ some s → (matches_short s ≡ true) × (s ≡ lower (strip h))
unfolding validate_short
validate_short→matches h s e = ground arith

-- Whatever text `validate_short` is given, a name that it returns is `macmini-m4-<n>` or
-- `macmini-r8-<n>`, perhaps with a further `-<n>`, each `<n>` a run of one or more decimal digits
-- and nothing after it.
pub validate_short-IsWorkerName : (h s : Text) → validate_short h ≡ some s → IsWorkerName s
validate_short-IsWorkerName h s e =
    let (m, eq) = validate_short→matches h s e in
    matches_short→IsWorkerName s m (rw eq (last_ok-lower-strip h))
