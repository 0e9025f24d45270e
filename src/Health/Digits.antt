-- ===== src/Health/Digits.antt =====
-- Numbers in decimal digits, as `_etime_s` reads them.
use relops_bootstrap.Prelude.{
  ℕ, zero, suc, ◌+◌, ◌*◌, ◌/◌, ◌%◌, ◌≤◌, ◌<◌, ◌≡◌, refl, ap, ◌∙◌, Bool, true, false, not,
  Bool-cases, inl, inr, [], ◌∷◌, ◌++◌, Text, is_empty, lacks, all_of, decimal, digits_before,
  stop_if, leb, ltb, ltb→lt, ltb→ge, lt→ltb, ◌==◌, arith,
}
use relops_bootstrap.Hostnames.{is_decimal, in_digits}
use relops_bootstrap.Workflow.Capture.{digit_value}
use relops_bootstrap.Health.Parsers.{is_digits, or_zero, digit_of, number_from, number}

-- A number below 100, in two digits.
abbrev pub two : ℕ → Text
two n = (48 + n / 10) ∷ (48 + n % 10) ∷ []

pub digit_of-ascii : (k : ℕ) → k < 10 → digit_of (48 + k) ≡ k
unfolding digit_of digit_value or_zero
digit_of-ascii k small =
    let high : ltb (48 + k) (0x30 + 10) ≡ true = lt→ltb _ _ (omega arith) in
    let low : leb 0x30 (48 + k) ≡ true = ground arith in rw (low, high) (omega arith)

pub is_decimal-ascii : (k : ℕ) → k < 10 → is_decimal (48 + k) ≡ true
unfolding is_decimal in_digits
is_decimal-ascii k small =
    let high : ltb (48 + k) (0x30 + 10) ≡ true = lt→ltb _ _ (omega arith) in
    let low : leb 0x30 (48 + k) ≡ true = ground arith in rw (low, high) refl

pub number-two : (n : ℕ) → n < 100 → number (two n) ≡ n
unfolding number number_from
number-two n small =
    rw (digit_of-ascii (n / 10) (omega arith), digit_of-ascii (n % 10) (omega arith)) (omega arith)

pub is_digits-two : (n : ℕ) → n < 100 → is_digits (two n) ≡ true
unfolding is_digits is_empty
is_digits-two n small =
    rw (is_decimal-ascii (n / 10) (omega arith), is_decimal-ascii (n % 10) (omega arith)) refl

-- The colon stands behind the digits, the dash before them.
pub colon-ascii : (k : ℕ) → k < 10 → ((48 + k) == b':') ≡ false
colon-ascii k small = ground arith

pub append-some : (s : Text) (c : ℕ) (t : Text) → is_empty (s ++ (c ∷ t)) ≡ false
unfolding is_empty
append-some [] c t = refl
append-some (d ∷ s) c t = refl

pub differs-ascii : (c k : ℕ) → c < 48 → ((48 + k) == c) ≡ false
differs-ascii c k h = ground arith

number_from-digits_before :
    (fuel n : ℕ) (s : Text) → n < fuel → number_from 0 (digits_before fuel n s) ≡ number_from n s
unfolding digits_before stop_if number_from
number_from-digits_before zero n s h = absurd (omega arith)
number_from-digits_before (suc fuel) n s h = elim (Bool-cases (ltb n 10)) [
  | inl small ↦
      let same : 0 * 10 + digit_of (48 + n % 10) ≡ n =
        omega (arith, ltb→lt n 10 small, digit_of-ascii (n % 10) (omega arith)) in
      rw small (ap (λ k. number_from k s) same)
  | inr big ↦
      let ten : 10 ≤ n = ltb→ge n 10 big in
      let same : n / 10 * 10 + n % 10 ≡ n = omega arith in
      rw big (
        number_from-digits_before fuel (n / 10) ((48 + n % 10) ∷ s) (omega (arith, ten))
        ∙ ap (λ k. number_from k s)
            (ap (λ d. n / 10 * 10 + d) (digit_of-ascii (n % 10) (omega arith)) ∙ same))
]

pub number-decimal : (n : ℕ) → number (decimal n) ≡ n
unfolding number decimal number_from
number-decimal n = number_from-digits_before (suc n) n [] (omega arith)

-- A property of the digits holds of all characters of the number.
digits_before-all :
    (p : ℕ → Bool)
    → ((k : ℕ) → k < 10 → p (48 + k) ≡ true)
    → (fuel n : ℕ) (s : Text) → all_of p s ≡ true
    → all_of p (digits_before fuel n s) ≡ true
unfolding digits_before stop_if
digits_before-all p ascii zero n s h = h
digits_before-all p ascii (suc fuel) n s h =
    let here : all_of p ((48 + n % 10) ∷ s) ≡ true = rw (ascii (n % 10) (omega arith), h) refl in
    elim (Bool-cases (ltb n 10)) [
      | inl small ↦ rw small here
      | inr big ↦ rw big (digits_before-all p ascii fuel (n / 10) ((48 + n % 10) ∷ s) here)
    ]

digits_before-some :
    (fuel n : ℕ) (s : Text) → is_empty s ≡ false → is_empty (digits_before fuel n s) ≡ false
unfolding digits_before stop_if is_empty
digits_before-some zero n s h = h
digits_before-some (suc fuel) n s h = elim (Bool-cases (ltb n 10)) [
  | inl small ↦ rw small refl
  | inr big ↦ rw big (digits_before-some fuel (n / 10) ((48 + n % 10) ∷ s) refl)
]

lacks-all_of : (c : ℕ) (s : Text) → all_of (λ d. not (d == c)) s ≡ true → lacks c s ≡ true
lacks-all_of c [] h = refl
lacks-all_of c (d ∷ s) h = ground (arith, lacks-all_of c s)

pub decimal-lacks : (c n : ℕ) → c < 48 → lacks c (decimal n) ≡ true
unfolding decimal
decimal-lacks c n low = lacks-all_of c _ (
    digits_before-all (λ d. not (d == c)) (λ k _. ap not (differs-ascii c k low)) (suc n) n [] refl)

decimal-some : (n : ℕ) → is_empty (decimal n) ≡ false
unfolding decimal digits_before stop_if is_empty
decimal-some n = elim (Bool-cases (ltb n 10)) [
  | inl small ↦ rw small refl
  | inr big ↦ rw big (digits_before-some n (n / 10) ((48 + n % 10) ∷ []) refl)
]

is_decimal-decimal : (n : ℕ) → all_of is_decimal (decimal n) ≡ true
unfolding decimal
is_decimal-decimal n = digits_before-all is_decimal is_decimal-ascii (suc n) n [] refl

pub is_digits-decimal : (n : ℕ) → is_digits (decimal n) ≡ true
unfolding is_digits
is_digits-decimal n = rw (decimal-some n, is_decimal-decimal n) refl
