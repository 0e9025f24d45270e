-- ===== src/Broker/Serve.antt =====
-- main.py: `get_secret`, with `read_secret` (secrets.py).
use relops_bootstrap.Prelude.{Option, none, some, Text, codes, ◌++◌, text_eq, if◌then◌else◌}
use relops_bootstrap.Broker.Limiter.{Float, Buckets, Limits, consume}
use relops_bootstrap.Broker.Identity.{Headers, Parsers, VerifiedIdentity, verify_mtls_headers}

-- The settings and libraries that the broker runs with. `read_secret` is the latest version in Secret
-- Manager, `none` where the call raises.
pub record Vault : Type 0 where
  pub parsers : Parsers
  pub trust_domain : Text
  pub limits : Limits
  pub read_secret : Text → Option Text

-- The answer: a status that is an error, or the secret with 200.
pub data Reply : Type 0 where
  unauthorized too_many forbidden unavailable : Reply
  served : Text → Reply

unfoldable pub secret_id : Text → Text
secret_id role = codes "vault-" ++ role

unfoldable pub of_secret : Option Text → Reply
of_secret none = unavailable
of_secret (some content) = served content

unfoldable pub authorized : Vault → Text → VerifiedIdentity → Reply
unfolding secret_id of_secret
authorized v role identity =
    if text_eq identity.role role then of_secret (v.read_secret (secret_id role)) else forbidden

unfoldable pub limited : Vault → Float → Text → VerifiedIdentity → Buckets → Reply × Buckets
unfolding consume authorized
limited v now role identity buckets =
    let (allowed, after) =
      consume v.limits now identity.cert_serial (v.limits.floats.of_int 1) buckets in
    (if allowed then authorized v role identity else too_many, after)

unfoldable pub serve_identity :
    Vault → Float → Text → Option VerifiedIdentity → Buckets → Reply × Buckets
unfolding limited
serve_identity v now role none buckets = (unauthorized, buckets)
serve_identity v now role (some identity) buckets = limited v now role identity buckets

-- `GET /secret/{role}` at `now`: the answer, and the limiter's buckets after it.
unfoldable pub get_secret : Vault → Float → Text → Headers → Buckets → Reply × Buckets
unfolding verify_mtls_headers serve_identity
get_secret v now role h buckets =
    serve_identity v now role (verify_mtls_headers v.parsers v.trust_domain h) buckets
