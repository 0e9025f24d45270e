-- ===== src/Tests/Vault.antt =====
-- A broker with one secret, and a few calls of its limiter.
use relops_bootstrap.Prelude.{
  ◌/◌, ltb, leb, ◌+◌, ◌-◌, ◌*◌, ◌≡◌, refl, ◌↔◌, none, some, [], ◌∷◌, Text, codes, text_eq,
  if◌then◌else◌, lower, starts_with, skip, partition, is_empty,
}
use relops_bootstrap.Broker.Limiter.{Floats, Bucket, Buckets, Limits, consume, lookup}
use relops_bootstrap.Broker.Identity.{Headers, Cert, parse_uri}
use relops_bootstrap.Broker.Identities.{Names, parse_uri_iff}
use relops_bootstrap.Broker.Serve.{Vault, served, get_secret}
use relops_bootstrap.Broker.Served.{IsEntitled, get_secret-IsEntitled}
use relops_bootstrap.Broker.Shares.{IsDict, IsLeft, consume-IsLeft}

-- Whole numbers in place of floats.
abbrev lab_floats : Floats
lab_floats = record {
  of_int = λ n. n;
  add = λ a b. a + b;
  sub = λ a b. a - b;
  mul = λ a b. a * b;
  div = λ a b. a / b;
  less = λ a b. ltb a b;
  at_least = λ a b. leb b a;
}

-- Two requests a second, and a burst of two.
abbrev lab_limits : Limits
lab_limits = record { requests_per_minute = 120; burst = 2; floats = lab_floats }

abbrev lab_uri : Text
lab_uri = codes "spiffe://relops.mozilla/host/m4-81/role/worker"

abbrev lab_cert : Cert
lab_cert = record { uri_sans = some (lab_uri ∷ []) }

abbrev lab_vault : Vault
lab_vault = record {
  parsers = record {
    b64decode = λ s. some s;
    load_pem = λ bytes. none;
    load_der = λ bytes. some lab_cert;
    unquote = λ s. s;
  };
  trust_domain = codes "relops.mozilla";
  limits = lab_limits;
  read_secret = λ id. if text_eq id (codes "vault-worker") then some (codes "key: 1") else none;
}

abbrev lab_headers : Headers
lab_headers = record {
  cert_present = codes "true";
  chain_verified = codes "True";
  cert_error = [];
  cert_leaf = codes "MIIB";
  serial_number = codes "0a";
}

lab-served : (get_secret lab_vault 5 (codes "worker") lab_headers []).0 ≡ served (codes "key: 1")
unfolding get_secret text_eq lower is_empty starts_with partition skip
lab-served = refl

get_secret-IsEntitled_example :
    IsEntitled lab_vault 5 (codes "worker") lab_headers [] (codes "key: 1")
get_secret-IsEntitled_example =
    get_secret-IsEntitled lab_vault 5 (codes "worker") lab_headers [] (codes "key: 1") lab-served

parse_uri_iff_example :
    (parse_uri (codes "spiffe://d/host/") (codes "spiffe://d/host/m1/role/a")
      ≡ some (codes "m1", codes "a"))
    ↔ Names (codes "spiffe://d/host/") (codes "spiffe://d/host/m1/role/a") (codes "m1") (codes "a")
parse_uri_iff_example =
    parse_uri_iff (codes "spiffe://d/host/") (codes "spiffe://d/host/m1/role/a") (codes "m1")
      (codes "a")

abbrev lab_buckets : Buckets
lab_buckets = (codes "0b", record { tokens = 1; last_refill = 3 }) ∷ []

consume-IsLeft_example :
    (let after = (consume lab_limits 5 (codes "0a") 1 lab_buckets).1 in
      IsLeft lab_limits 5 lab_buckets (lookup (codes "0b") lab_buckets) (lookup (codes "0b") after)
      × IsDict after
      × ((b : Bucket) × (lookup (codes "0a") after ≡ some b)))
unfolding text_eq lookup
consume-IsLeft_example =
    consume-IsLeft lab_limits 5 1 (codes "0a") (codes "0b") lab_buckets (refl, tt) refl
