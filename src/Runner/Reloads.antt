-- ===== src/Runner/Reloads.antt =====
-- What `Config` promises, and when the client is built anew.
use relops_bootstrap.Prelude.{
  ℕ, suc, ◌≤◌, ◌≡◌, refl, Bool, true, false, ◌&&◌, ◌||◌, not, Option, none, some, Text, is_empty,
  if◌then◌else◌, arith, ◌⊎◌, inl, inr,
}
use relops_bootstrap.Runner.Calls.{Config}
use relops_bootstrap.Runner.Setup.{
  Environ, configured, no_api, no_auth, at_least_one, has_auth, check_config, with_numbers,
  read_config, Stamp, Reloading,
}

at_least_one_pos : (n : Bool × ℕ) → 1 ≤ at_least_one n
unfolding at_least_one
at_least_one_pos (true, n) = omega arith
at_least_one_pos (false, n) = omega arith

-- `current` after the stamp has been read.
abbrev chosen : Bool → Bool → Stamp → Reloading → Reloading
chosen has same stamp r =
    if not has || not same
    then record { built = suc r.built; has_client = true; stamp = stamp }
    else r

-- Either a client is built, with the new stamp, or the one that is held has that stamp.
abbrev pub IsCurrent : Stamp → Reloading → Reloading → Type 0
IsCurrent stamp r once =
    (once ≡ record { built = suc r.built; has_client = true; stamp = stamp })
    ⊎ ((r.has_client ≡ true) × (r.stamp ≡ stamp) × (once ≡ r))

-- A token, or a certificate and its key.
abbrev pub CanLogIn : Config → Type 0
CanLogIn c =
    (is_empty c.token ≡ false)
    ⊎ ((is_empty c.client_cert ≡ false) × (is_empty c.client_key ≡ false))

abbrev IsUsable : Config → Type 0
IsUsable c = (1 ≤ c.max_concurrent) × (is_empty c.api ≡ false) × CanLogIn c

auth-cases :
    (t c k : Bool) → (not t || (not c && not k)) ≡ true → (t ≡ false) ⊎ ((c ≡ false) × (k ≡ false))
auth-cases false c k e = inl refl
auth-cases true false false e = inr (refl, refl)
auth-cases true false true e = absurd (cc)
auth-cases true true k e = absurd (cc)

has_auth-CanLogIn : (c : Config) → has_auth c ≡ true → CanLogIn c
unfolding has_auth
has_auth-CanLogIn c e =
    auth-cases (is_empty c.token) (is_empty c.client_cert) (is_empty c.client_key) e

checked :
    (a b : Bool) (d c : Config)
    → (if a then no_api else if b then configured d else no_auth) ≡ configured c
    → (a ≡ false) × (b ≡ true) × (d ≡ c)
checked true b d c e = absurd (cc)
checked false true d c e = (refl, refl, cc)
checked false false d c e = absurd (cc)

check_config-IsUsable :
    (d c : Config) → 1 ≤ d.max_concurrent → check_config d ≡ configured c → IsUsable c
unfolding check_config
check_config-IsUsable d c h e =
    let (api, auth, same) = checked (is_empty d.api) (has_auth d) d c e in
    rw (← same) (h, api, has_auth-CanLogIn d auth)

with_numbers-IsUsable :
    (env : Environ) (hostname : Text) (poll most : Option (Bool × ℕ)) (c : Config)
    → with_numbers env hostname poll most ≡ configured c
    → IsUsable c
unfolding with_numbers
with_numbers-IsUsable env hostname none most c e = absurd (cc)
with_numbers-IsUsable env hostname (some poll) none c e = absurd (cc)
with_numbers-IsUsable env hostname (some poll) (some most) c e =
    check_config-IsUsable _ c (at_least_one_pos most) e

-- A configuration that the program starts with lets at least one job run at a time, has the address
-- of Hangar, and has a token or both files of a certificate.
pub read_config-IsUsable :
    (env : Environ) (hostname : Text) (c : Config)
    → read_config env hostname ≡ configured c
    → (1 ≤ c.max_concurrent) × (is_empty c.api ≡ false) × CanLogIn c
unfolding read_config
read_config-IsUsable env hostname c e = with_numbers-IsUsable env hostname _ _ c e
