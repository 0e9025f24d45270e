-- ===== src/Broker/Served.antt =====
-- Who is served a secret.
use relops_bootstrap.Prelude.{
  ◌≡◌, ◌≢◌, refl, Bool, true, false, not, Option, none, some, some-injective, subst, if_not-some,
  List, Text, codes, text_eq, text_eq→eq, is_empty, lower, if◌then◌else◌, arith,
}
use relops_bootstrap.Broker.Limiter.{Float, Buckets, consume}
use relops_bootstrap.Broker.Identity.{
  Headers, Cert, VerifiedIdentity, decode_leaf, extract_spiffe, of_sans, spiffe_prefix, serial_of,
  to_identity, identify, verify_mtls_headers,
}
use relops_bootstrap.Broker.Identities.{Names, Among, first_identity-Among}
use relops_bootstrap.Broker.Serve.{
  Vault, Reply, too_many, forbidden, served, secret_id, of_secret, authorized, limited,
  serve_identity, get_secret,
}

-- What stands behind a secret that was served.
pub record IsEntitled (v : Vault) (now : Float) (role : Text) (h : Headers) (buckets : Buckets)
    (content : Text) : Type 0 where
  pub present : lower h.cert_present ≡ codes "true"
  pub chain : lower h.chain_verified ≡ codes "true"
  pub cert : Cert
  pub decoded : decode_leaf v.parsers h.cert_leaf ≡ some cert
  pub uris : List Text
  pub has_uris : cert.uri_sans ≡ some uris
  pub uri : Text
  pub among : Among uri uris
  pub hostname : Text
  pub names : Names (spiffe_prefix v.trust_domain) (v.parsers.unquote uri) hostname role
  pub within_limit :
      (consume v.limits now (serial_of h.serial_number) (v.limits.floats.of_int 1) buckets).0 ≡ true
  pub read : v.read_secret (secret_id role) ≡ some content

of_secret-served :
    (o : Option Text) (content : Text) → of_secret o ≡ served content → o ≡ some content
unfolding of_secret
of_secret-served none content e = absurd (cc)
of_secret-served (some s) content e = cc

-- A conditional answer that is a secret.
if-served :
    (b : Bool) (r r' : Reply) (content : Text)
    → r' ≢ served content
    → (if b then r else r') ≡ served content
    → (b ≡ true) × (r ≡ served content)
if-served true r r' content other e = (refl, e)
if-served false r r' content other e = absurd (other e)

limited-served :
    (v : Vault) (now : Float) (role content : Text) (identity : VerifiedIdentity)
    (buckets : Buckets)
    → (limited v now role identity buckets).0 ≡ served content
    → ((consume v.limits now identity.cert_serial (v.limits.floats.of_int 1) buckets).0 ≡ true)
      × (identity.role ≡ role)
      × (v.read_secret (secret_id role) ≡ some content)
unfolding limited authorized
limited-served v now role content identity buckets e =
    let (allowed, e') =
      if-served (consume v.limits now identity.cert_serial (v.limits.floats.of_int 1) buckets).0 _
        too_many content (λ q. absurd (cc)) e in
    let (same, e'') = if-served (text_eq identity.role role) _ forbidden content (λ q. cc) e' in
    (allowed, text_eq→eq identity.role role same, of_secret-served _ content e'')

serve_identity-served :
    (v : Vault) (now : Float) (role content : Text) (o : Option VerifiedIdentity)
    (buckets : Buckets)
    → (serve_identity v now role o buckets).0 ≡ served content
    → (identity : VerifiedIdentity) × (o ≡ some identity)
      × ((limited v now role identity buckets).0 ≡ served content)
unfolding serve_identity
serve_identity-served v now role content none buckets e = absurd (cc)
serve_identity-served v now role content (some identity) buckets e = (identity, refl, e)

-- What stands behind an identity.
record IsVerified (v : Vault) (h : Headers) (identity : VerifiedIdentity) : Type 0 where
  cert : Cert
  decoded : decode_leaf v.parsers h.cert_leaf ≡ some cert
  uris : List Text
  has_uris : cert.uri_sans ≡ some uris
  uri : Text
  among : Among uri uris
  names :
      Names (spiffe_prefix v.trust_domain) (v.parsers.unquote uri) identity.hostname identity.role
  serial : identity.cert_serial ≡ serial_of h.serial_number

to_identity-some :
    (serial : Text) (o : Option (Text × Text)) (identity : VerifiedIdentity)
    → to_identity serial o ≡ some identity
    → (o ≡ some (identity.hostname, identity.role)) × (identity.cert_serial ≡ serial_of serial)
unfolding to_identity
to_identity-some serial none identity e = absurd (cc)
to_identity-some serial (some (hostname, role)) identity e =
    let same = some-injective e in rw (← same) (refl, refl)

of_sans-some :
    (unquote : Text → Text) (prefix : Text) (o : Option (List Text)) (q : Text × Text)
    → of_sans unquote prefix o ≡ some q
    → (uris : List Text) × (o ≡ some uris)
      × (uri : Text) × Among uri uris
      × Names prefix (unquote uri) q.0 q.1
unfolding of_sans
of_sans-some unquote prefix none q e = absurd (cc)
of_sans-some unquote prefix (some uris) q e =
    let (uri, among, names) = first_identity-Among unquote prefix uris q e in
    (uris, refl, uri, among, names)

identify-IsVerified :
    (v : Vault) (h : Headers) (o : Option Cert) (identity : VerifiedIdentity)
    → decode_leaf v.parsers h.cert_leaf ≡ o
    → identify v.parsers v.trust_domain h.serial_number o ≡ some identity
    → IsVerified v h identity
unfolding identify extract_spiffe
identify-IsVerified v h none identity d e = absurd (cc)
identify-IsVerified v h (some cert) identity d e =
    let (found, serial) = to_identity-some h.serial_number _ identity e in
    let (uris, has, uri, among, names) = of_sans-some _ _ cert.uri_sans _ found in
    record {
      cert = cert;
      decoded = d;
      uris = uris;
      has_uris = has;
      uri = uri;
      among = among;
      names = names;
      serial = serial;
    }

verify_mtls_headers-IsVerified :
    (v : Vault) (h : Headers) (identity : VerifiedIdentity)
    → verify_mtls_headers v.parsers v.trust_domain h ≡ some identity
    → (lower h.cert_present ≡ codes "true")
      × (lower h.chain_verified ≡ codes "true")
      × IsVerified v h identity
unfolding verify_mtls_headers
verify_mtls_headers-IsVerified v h identity e =
    let (present, e1) = if_not-some {b = not (text_eq (lower h.cert_present) (codes "true"))} e in
    let (chain, e2) = if_not-some {b = not (text_eq (lower h.chain_verified) (codes "true"))} e1 in
    let (leaf, e3) = if_not-some {b = is_empty h.cert_leaf} e2 in
    (
      text_eq→eq (lower h.cert_present) (codes "true") (ground (arith, present)),
      text_eq→eq (lower h.chain_verified) (codes "true") (ground (arith, chain)),
      identify-IsVerified v h _ identity refl e3,
    )

-- A secret is served only if the load balancer says that a certificate was presented and that its
-- chain is verified; the certificate is read, and one of its URIs, unquoted, is written from the
-- broker's trust domain, a host and the role that is asked for; the limiter lets the certificate's
-- serial pass; and what is served is what Secret Manager has for that role.
pub get_secret-IsEntitled :
    (v : Vault) (now : Float) (role : Text) (h : Headers) (buckets : Buckets) (content : Text)
    → (get_secret v now role h buckets).0 ≡ served content
    → IsEntitled v now role h buckets content
unfolding get_secret
get_secret-IsEntitled v now role h buckets content e =
    let (identity, verified, e') = serve_identity-served v now role content _ buckets e in
    let (present, chain, i) = verify_mtls_headers-IsVerified v h identity verified in
    let (allowed, same, read) = limited-served v now role content identity buckets e' in
    record {
      present = present;
      chain = chain;
      cert = i.cert;
      decoded = i.decoded;
      uris = i.uris;
      has_uris = i.has_uris;
      uri = i.uri;
      among = i.among;
      hostname = identity.hostname;
      names =
          subst (Names (spiffe_prefix v.trust_domain) (v.parsers.unquote i.uri) identity.hostname)
            same i.names;
      within_limit =
          subst (λ s. (consume v.limits now s (v.limits.floats.of_int 1) buckets).0 ≡ true) i.serial
            allowed;
      read = read;
    }
