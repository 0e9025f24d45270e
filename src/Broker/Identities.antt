-- ===== src/Broker/Identities.antt =====
-- What the parser of SPIFFE URIs reads: exactly the texts that are written from a host and a role.
use relops_bootstrap.Prelude.{
  ◌≡◌, refl, ap, ◌∙◌, true, false, ◌⊎◌, inl, inr, Option, none, some, ◌↔◌, List, [], ◌∷◌, ◌++◌,
  Text, codes, text_eq, text_eq→eq, is_empty, starts_with→eq, starts_with-append, skip, skip-append,
  partition, partition-split, partition-lacks, partition-append, lacks, if-some, if_else-some,
  arith,
}
use relops_bootstrap.Broker.Identity.{
  check_parts, second_part, first_part, parse_uri, or_else, first_identity,
}

-- `spiffe://<trust domain>/host/` is the prefix.
abbrev pub written : Text → Text → Text → Text
written prefix hostname role = prefix ++ (hostname ++ (b'/' ∷ (codes "role" ++ (b'/' ∷ role))))

-- The URI names the host, which has no slash, and the role; neither is empty.
pub record Names (prefix uri hostname role : Text) : Type 0 where
  pub is_written : uri ≡ written prefix hostname role
  pub has_host : is_empty hostname ≡ false
  pub has_role : is_empty role ≡ false
  pub plain : lacks b'/' hostname ≡ true

check_parts-some :
    (hostname marker role : Text) (q : Text × Text)
    → check_parts hostname marker role ≡ some q
    → (marker ≡ codes "role")
      × (is_empty hostname ≡ false)
      × (is_empty role ≡ false)
      × ((hostname, role) ≡ q)
unfolding check_parts
check_parts-some hostname marker role q e =
    let (t, same) = if-some e in
    (
      text_eq→eq marker (codes "role") (ground (arith, t)),
      ground (arith, t),
      ground (arith, t),
      same,
    )

second_part-some :
    (hostname : Text) (p : Text × Option Text) (q : Text × Text)
    → second_part hostname p ≡ some q
    → (role : Text) × (p.1 ≡ some role) × (check_parts hostname p.0 role ≡ some q)
unfolding second_part
second_part-some hostname (marker, none) q e = absurd (cc)
second_part-some hostname (marker, some role) q e = (role, refl, e)

first_part-some :
    (p : Text × Option Text) (q : Text × Text)
    → first_part p ≡ some q
    → (rest : Text) × (p.1 ≡ some rest) × (second_part p.0 (partition b'/' rest) ≡ some q)
unfolding first_part
first_part-some (hostname, none) q e = absurd (cc)
first_part-some (hostname, some rest) q e = (rest, refl, e)

pub parse_uri-Names :
    (prefix uri : Text) (q : Text × Text) → parse_uri prefix uri ≡ some q → Names prefix uri q.0 q.1
unfolding parse_uri
parse_uri-Names prefix uri q e =
    let (starts, found) = if_else-some e in
    let rest = skip uri prefix in
    let (after, split, e') = first_part-some (partition b'/' rest) q found in
    let (role, split', e'') =
      second_part-some (partition b'/' rest).0 (partition b'/' after) q e' in
    let (marked, has_host, has_role, same) =
      check_parts-some (partition b'/' rest).0 (partition b'/' after).0 role q e'' in
    rw (← same) (record {
      is_written =
          starts_with→eq uri prefix starts
          ∙ ap (λ t. prefix ++ t)
              (partition-split b'/' rest after split
                ∙ ap (λ t. (partition b'/' rest).0 ++ (b'/' ∷ t))
                    (partition-split b'/' after role split' ∙ ap (λ t. t ++ (b'/' ∷ role)) marked));
      has_host = has_host;
      has_role = has_role;
      plain = partition-lacks b'/' rest;
    })

-- A URI that is written from a host without a slash and a role, neither of them empty, is parsed to
-- that host and that role; and a text that is parsed is written from what it is parsed to, which is
-- such a host and such a role.
pub parse_uri_iff :
    (prefix uri hostname role : Text)
    → (parse_uri prefix uri ≡ some (hostname, role)) ↔ Names prefix uri hostname role
unfolding parse_uri first_part second_part check_parts text_eq
parse_uri_iff prefix uri hostname role = (
  parse_uri-Names prefix uri (hostname, role),
  λ n.
      rw
        (
          n.is_written,
          starts_with-append prefix (hostname ++ (b'/' ∷ (codes "role" ++ (b'/' ∷ role)))),
          skip-append prefix (hostname ++ (b'/' ∷ (codes "role" ++ (b'/' ∷ role)))),
          partition-append b'/' hostname (codes "role" ++ (b'/' ∷ role)) n.plain,
          partition-append b'/' (codes "role") role refl,
          n.has_host,
          n.has_role,
        )
        refl,
)

-- One of a list.
pub data Among (raw : Text) : List Text → Type 0 where
  first : {raws : List Text} → Among raw (raw ∷ raws)
  later : {other : Text} {raws : List Text} → Among raw raws → Among raw (other ∷ raws)

or_else-some :
    (o p : Option (Text × Text)) (q : Text × Text)
    → or_else o p ≡ some q
    → (o ≡ some q) ⊎ (p ≡ some q)
unfolding or_else
or_else-some none p q e = inr e
or_else-some (some o) p q e = inl e

pub first_identity-Among :
    (unquote : Text → Text) (prefix : Text) (raws : List Text) (q : Text × Text)
    → first_identity unquote prefix raws ≡ some q
    → (raw : Text) × Among raw raws × Names prefix (unquote raw) q.0 q.1
unfolding first_identity
first_identity-Among unquote prefix [] q e = absurd (cc)
first_identity-Among unquote prefix (raw ∷ raws) q e =
    elim (or_else-some (parse_uri prefix (unquote raw)) (first_identity unquote prefix raws) q e) [
      | inl here ↦ (raw, first, parse_uri-Names prefix (unquote raw) q here)
      | inr rest ↦
          let (found, there, n) = first_identity-Among unquote prefix raws q rest in
          (found, later there, n)
    ]
