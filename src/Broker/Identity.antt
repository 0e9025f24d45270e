-- ===== src/Broker/Identity.antt =====
-- auth.py: the identity in the headers that the load balancer sends.
use relops_bootstrap.Prelude.{
  ℕ, ◌&&◌, not, Option, none, some, List, [], ◌∷◌, ◌++◌, Text, codes, text_eq, is_empty, lower,
  strip, ◌==◌, starts_with, skip, partition, if◌then◌else◌,
}

-- The headers of a request; one that is missing is empty.
pub record Headers : Type 0 where
  pub cert_present : Text
  pub chain_verified : Text
  pub cert_error : Text
  pub cert_leaf : Text
  pub serial_number : Text

-- A certificate as far as it is read: the URIs of its SubjectAltName, if it has that extension.
pub record Cert : Type 0 where
  pub uri_sans : Option (List Text)

-- base64, the parsers of certificates and `unquote` are libraries'; `none` is an exception.
pub record Parsers : Type 0 where
  pub b64decode : Text → Option (List ℕ)
  pub load_pem : List ℕ → Option Cert
  pub load_der : List ℕ → Option Cert
  pub unquote : Text → Text

pub record VerifiedIdentity : Type 0 where
  pub hostname : Text
  pub role : Text
  pub cert_serial : Text

-- `s.replace(c, "")` for a single character.
unfoldable pub remove : ℕ → Text → Text
remove x [] = []
remove x (c ∷ s) = let rest = remove x s in if c == x then rest else c ∷ rest

-- `leaf_header.strip().replace("\n", "").replace("\r", "")`
unfoldable pub cleaned : Text → Text
unfolding remove
cleaned s = remove 13 (remove 10 (strip s))

unfoldable pub or_der : Parsers → List ℕ → Option Cert → Option Cert
or_der ps bytes none = ps.load_der bytes
or_der ps bytes (some cert) = some cert

unfoldable pub load : Parsers → Option (List ℕ) → Option Cert
unfolding or_der
load ps none = none
load ps (some bytes) = or_der ps bytes (ps.load_pem bytes)

-- `_decode_leaf`; `none` is an `AuthError`.
unfoldable pub decode_leaf : Parsers → Text → Option Cert
unfolding cleaned load
decode_leaf ps header = load ps (ps.b64decode (cleaned header))

unfoldable pub spiffe_prefix : Text → Text
spiffe_prefix trust_domain = codes "spiffe://" ++ trust_domain ++ codes "/host/"

-- `if role_marker != "role" or not hostname or not role`
unfoldable pub check_parts : Text → Text → Text → Option (Text × Text)
check_parts hostname role_marker role =
    if text_eq role_marker (codes "role") && not (is_empty hostname) && not (is_empty role)
    then some (hostname, role)
    else none

-- The rest of `split("/", 2)`, after its first part.
unfoldable pub second_part : Text → Text × Option Text → Option (Text × Text)
unfolding check_parts
second_part hostname (marker, none) = none
second_part hostname (marker, some role) = check_parts hostname marker role

unfoldable pub first_part : Text × Option Text → Option (Text × Text)
unfolding second_part
first_part (hostname, none) = none
first_part (hostname, some rest) = second_part hostname (partition b'/' rest)

-- One URI of the loop: the host and the role in it, or `continue`.
unfoldable pub parse_uri : Text → Text → Option (Text × Text)
unfolding first_part
parse_uri prefix uri =
    if starts_with uri prefix then first_part (partition b'/' (skip uri prefix)) else none

unfoldable pub or_else : Option (Text × Text) → Option (Text × Text) → Option (Text × Text)
or_else none o = o
or_else (some p) o = some p

unfoldable pub first_identity : (Text → Text) → Text → List Text → Option (Text × Text)
unfolding parse_uri or_else
first_identity unquote prefix [] = none
first_identity unquote prefix (raw ∷ uris) =
    or_else (parse_uri prefix (unquote raw)) (first_identity unquote prefix uris)

unfoldable pub of_sans : (Text → Text) → Text → Option (List Text) → Option (Text × Text)
unfolding first_identity
of_sans unquote prefix none = none
of_sans unquote prefix (some uris) = first_identity unquote prefix uris

-- `_extract_spiffe`; `none` is an `AuthError`.
unfoldable pub extract_spiffe : Parsers → Cert → Text → Option (Text × Text)
unfolding of_sans spiffe_prefix
extract_spiffe ps cert trust_domain = of_sans ps.unquote (spiffe_prefix trust_domain) cert.uri_sans

-- `serial_number or "unknown"`
unfoldable pub serial_of : Text → Text
serial_of s = if is_empty s then codes "unknown" else s

unfoldable pub to_identity : Text → Option (Text × Text) → Option VerifiedIdentity
unfolding serial_of
to_identity serial none = none
to_identity serial (some (hostname, role)) =
    some (record { hostname = hostname; role = role; cert_serial = serial_of serial })

unfoldable pub identify : Parsers → Text → Text → Option Cert → Option VerifiedIdentity
unfolding extract_spiffe to_identity
identify ps trust_domain serial none = none
identify ps trust_domain serial (some cert) =
    to_identity serial (extract_spiffe ps cert trust_domain)

-- `verify_mtls_headers`; `none` is an `AuthError`.
unfoldable pub verify_mtls_headers : Parsers → Text → Headers → Option VerifiedIdentity
unfolding decode_leaf identify
verify_mtls_headers ps trust_domain h =
    if not (text_eq (lower h.cert_present) (codes "true"))
    then none
    else if not (text_eq (lower h.chain_verified) (codes "true"))
    then none
    else if is_empty h.cert_leaf
    then none
    else identify ps trust_domain h.serial_number (decode_leaf ps h.cert_leaf)
