-- ===== src/Batch/Results.antt =====
-- batch.py: the results of a phase's children, and the hosts that are to be watched after it.
use relops_bootstrap.Prelude.{
  arith, ℕ, ◌≡◌, ◌≢◌, refl, subst, ap, ◌∙◌, Bool, ◌⊎◌, some-injective, text_eq_refl, true, false,
  Option, none, some, List, [], ◌∷◌, Text, text_eq, text_eq→eq, ◌==◌, Bool-cases, inl, inr,
}
use relops_bootstrap.Batch.Hosts.{is_in, unique}
use relops_bootstrap.Batch.Run.{
  Exit, exited, killed, not_run, add_result, gather, HostResult, state_of, result_of, is_skipped,
  was_skipped, to_watch,
}

-- A child that did not exit with 2 has not been skipped.
state_of-unskipped :
    (negative : Bool) (code : ℕ)
    → (negative ≡ true) ⊎ (code ≢ 2)
    → is_skipped (state_of negative code) ≡ false
unfolding is_skipped state_of
state_of-unskipped true code ne = elim (Bool-cases (code == 0)) [
  | inl zero_code ↦ rw zero_code refl
  | inr other ↦ rw other refl
]
state_of-unskipped false code (inl e) = absurd (cc)
state_of-unskipped false code (inr ne) = elim (Bool-cases (code == 2)) [
  | inl two ↦ absurd (ne (ground (arith, two)))
  | inr other ↦ ground (arith, other)
]

-- Neither an exit with 2 nor an `OSError`.
pub data IsUnskipped : Exit → Type 0 where
  was_killed : {text : Text} → IsUnskipped (killed text)
  by_signal : {code : ℕ} {text : Text} → IsUnskipped (exited true code text)
  other_code : {code : ℕ} {text : Text} → code ≢ 2 → IsUnskipped (exited false code text)

pub result_of-unskipped :
    (host : Text) (timeout : ℕ) (e : Exit) (r : HostResult)
    → IsUnskipped e
    → result_of host timeout e ≡ some r
    → is_skipped r.state ≡ false
unfolding result_of is_skipped
result_of-unskipped host timeout _ r was_killed e = rw (← some-injective e) refl
result_of-unskipped host timeout (exited _ code text) r by_signal e =
    rw (← some-injective e) (state_of-unskipped true code (inl refl))
result_of-unskipped host timeout (exited _ code text) r (other_code ne) e =
    rw (← some-injective e) (state_of-unskipped false code (inr ne))

pub result_of-hostname :
    (host : Text) (timeout : ℕ) (e : Exit) (r : HostResult)
    → result_of host timeout e ≡ some r
    → r.hostname ≡ host
unfolding result_of
result_of-hostname host timeout not_run r e = absurd (cc)
result_of-hostname host timeout (killed text) r e = rw (← some-injective e) refl
result_of-hostname host timeout (exited negative code text) r e = rw (← some-injective e) refl

pub result_of-some :
    (host : Text) (timeout : ℕ) (e : Exit)
    → e ≢ not_run
    → (r : HostResult) × (result_of host timeout e ≡ some r)
unfolding result_of
result_of-some host timeout not_run ne = absurd (ne refl)
result_of-some host timeout (killed text) ne = (_, refl)
result_of-some host timeout (exited negative code text) ne = (_, refl)

add_result-some :
    (o : Option HostResult) (os : Option (List HostResult)) (rs : List HostResult)
    → add_result o os ≡ some rs
    → (r : HostResult) × (rest : List HostResult) × (o ≡ some r)
      × (os ≡ some rest)
      × (r ∷ rest ≡ rs)
unfolding add_result
add_result-some none os rs e = absurd (cc)
add_result-some (some r) none rs e = absurd (cc)
add_result-some (some r) (some rest) rs e = (r, rest, refl, refl, some-injective e)

module _ (f : Text → Option HostResult) where
  pub gather-some :
      (hosts : List Text)
      → ((h : Text) → is_in h hosts ≡ true → (r : HostResult) × (f h ≡ some r))
      → (rs : List HostResult) × (gather f hosts ≡ some rs)
  unfolding gather add_result is_in
  gather-some [] run = ([], refl)
  gather-some (k ∷ hosts) run =
      let (r, e) = run k (rw (text_eq_refl k) refl) in
      let (rs, es) = gather-some hosts (λ h i. run h (ground (arith, i))) in
      (r ∷ rs, rw (e, es) refl)

  -- The result that is looked up by a host is the host's own.
  pub gather-unskipped :
      (host : Text) (hosts : List Text) (rs : List HostResult)
      → ((h : Text) (r : HostResult) → f h ≡ some r → r.hostname ≡ h)
      → ((r : HostResult) → f host ≡ some r → is_skipped r.state ≡ false)
      → is_in host hosts ≡ true
      → gather f hosts ≡ some rs
      → was_skipped host rs ≡ false
  unfolding was_skipped is_in gather
  gather-unskipped host [] rs named free i e = absurd (cc)
  gather-unskipped host (k ∷ hosts) rs named free i e =
      let (r, rest, er, es, both) = add_result-some (f k) (gather f hosts) rs e in
      elim (Bool-cases (text_eq host k)) [
        | inl same ↦
            let this_one : text_eq host r.hostname ≡ true = rw (named k r er) same in
            let unskipped : is_skipped r.state ≡ false =
              free r (ap f (text_eq→eq host k same) ∙ er) in
            rw (← both) (ground (arith, this_one, unskipped))
        | inr other ↦
            let this_one : text_eq host r.hostname ≡ false = rw (named k r er) other in
            let later_one =
              gather-unskipped host hosts rest named free (ground (arith, i, other)) es in
            rw (← both) (ground (arith, this_one, later_one))
      ]

-- The hosts without their repetitions are hosts.
pub unique-only :
    (h : Text) (seen hosts : List Text) → is_in h (unique seen hosts) ≡ true → is_in h hosts ≡ true
unfolding unique is_in
unique-only h seen [] e = e
unique-only h seen (k ∷ hosts) e = elim (Bool-cases (is_in k seen)) [
  | inl old ↦
      let rest : is_in h hosts ≡ true = unique-only h seen hosts (ground (arith, e, old)) in
      ground (arith, rest)
  | inr new ↦ elim (Bool-cases (text_eq h k)) [
    | inl same ↦ ground (arith, same)
    | inr other ↦
        let rest : is_in h hosts ≡ true =
          unique-only h (k ∷ seen) hosts (ground (arith, e, new, other)) in
        ground (arith, rest)
  ]
]

pub to_watch-keeps :
    (added : List HostResult) (host : Text) (hosts : List Text)
    → is_in host hosts ≡ true
    → was_skipped host added ≡ false
    → is_in host (to_watch added hosts) ≡ true
unfolding to_watch is_in
to_watch-keeps added host [] e n = absurd (cc)
to_watch-keeps added host (k ∷ hosts) e n = elim (Bool-cases (text_eq host k)) [
  | inl same ↦
      let there : was_skipped k added ≡ false =
        subst (λ x. was_skipped x added ≡ false) (text_eq→eq host k same) n in
      ground (arith, same, there)
  | inr other ↦ ground (arith, other, to_watch-keeps added host hosts (ground (arith, e, other)) n)
]
