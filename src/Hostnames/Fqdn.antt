-- ===== src/Hostnames/Fqdn.antt =====
-- What `validate_fqdn` accepts: a base that `validate_short` takes, before the fixed domain.
-- It checks the base through `validate_short`, which strips it, and returns the text that it had.
use relops_bootstrap.Prelude.{
  inl, inr, ◌≡◌, ap, ◌∙◌, none, some, ◌∷◌, ◌++◌, arith, Text, text_eq, text_eq→eq, text_eq_refl,
  strip, lower, partition, partition-split, Bool-cases, Option-cases, Option,
}
use relops_bootstrap.Hostnames.Defs.{validate_short, validate_fqdn, check_fqdn, worker_domain}
use relops_bootstrap.Hostnames.Shape.{IsWorkerName, validate_short-IsWorkerName}

check_fqdn-some :
    (raw base : Text) (o : Option Text) (f : Text)
    → check_fqdn raw base o ≡ some f
    → (n : Text) × (f ≡ raw) × (o ≡ some worker_domain) × (validate_short base ≡ some n)
unfolding check_fqdn
check_fqdn-some raw base none f h = absurd (cc)
check_fqdn-some raw base (some domain) f h = elim (Bool-cases (text_eq domain worker_domain)) [
  | inl e ↦ elim (Option-cases (validate_short base)) [
    | inl v ↦ absurd (ground (arith, e, v, h))
    | inr (n, v) ↦ (n, ground (arith, e, v, h), ap some (text_eq→eq _ _ e), v)
  ]
  | inr e ↦ absurd (ground (arith, e, h))
]

check_fqdn-worker :
    (raw base n : Text)
    → validate_short base ≡ some n
    → check_fqdn raw base (some worker_domain) ≡ some raw
unfolding check_fqdn
check_fqdn-worker raw base n valid = rw (text_eq_refl worker_domain) (rw (valid, check_fqdn))

-- A name that `validate_fqdn` returns is a base, a dot and the fixed test domain; and the base, once
-- it has been stripped and lowered, is the name of a worker.
pub validate_fqdn-domain :
    (h f : Text)
    → validate_fqdn h ≡ some f
    → (base n : Text) × (f ≡ base ++ (b'.' ∷ worker_domain))
      × (validate_short base ≡ some n)
      × IsWorkerName n
unfolding validate_fqdn
validate_fqdn-domain h f e =
    let raw = lower (strip h) in
    let (n, same, domain, valid) = check_fqdn-some raw _ _ f e in
    (
      (partition b'.' raw).0,
      n,
      same ∙ partition-split b'.' raw _ domain,
      valid,
      validate_short-IsWorkerName _ n valid,
    )
