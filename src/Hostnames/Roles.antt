-- ===== src/Hostnames/Roles.antt =====
-- Every worker that `validate_short` accepts has a puppet role.
use relops_bootstrap.Prelude.{
  ◌≡◌, refl, ap, ◌⊎◌, inl, inr, some, ◌++◌, arith, Text, codes, starts_with, partition,
}
use relops_bootstrap.Hostnames.Defs.{validate_short, role_for_hostname, m4_prefix, r8_prefix}
use relops_bootstrap.Hostnames.Shape.{IsWorkerName, IsModel, validate_short-IsWorkerName}

abbrev pub m4_role : Text
m4_role = codes "gecko_t_osx_1500_m4"

abbrev pub r8_role : Text
r8_role = codes "gecko_t_osx_1400_r8"

role_of_m4 : (s : Text) → role_for_hostname (m4_prefix ++ s) ≡ some m4_role
unfolding role_for_hostname partition starts_with
role_of_m4 s = refl

role_of_r8 : (s : Text) → role_for_hostname (r8_prefix ++ s) ≡ some r8_role
unfolding role_for_hostname partition starts_with
role_of_r8 s = ground arith

-- An M4 and its role, or an R8 and its.
abbrev pub HasItsRole : Text → Type 0
HasItsRole s =
    ((rest : Text) × (s ≡ codes "macmini-m4-" ++ rest) × (role_for_hostname s ≡ some m4_role))
    ⊎ ((rest : Text) × (s ≡ codes "macmini-r8-" ++ rest) × (role_for_hostname s ≡ some r8_role))

role_of_model : (m s : Text) → IsModel m → HasItsRole (m ++ s)
role_of_model m s (inl e) = inl (s, ap (λ p. p ++ s) e, rw e (role_of_m4 s))
role_of_model m s (inr e) = inr (s, ap (λ p. p ++ s) e, rw e (role_of_r8 s))

-- A worker's name has the role of its model: after `validate_short` has accepted a name, that name
-- starts with macmini-m4- and `role_for_hostname` gives it the M4's role, or with macmini-r8- and the
-- R8's.
pub role_for_hostname-worker : (h s : Text) → validate_short h ≡ some s → HasItsRole s
role_for_hostname-worker h s e = elim (validate_short-IsWorkerName h s e) [
  | IsWorkerName.plain m ds model are eq ↦ rw eq (role_of_model m ds model)
  | IsWorkerName.indexed m ds es model are ares eq ↦ rw eq (role_of_model m _ model)
]
