-- ===== src/Tests/Names.antt =====
-- Hostnames that are accepted and refused, and a version.
use relops_bootstrap.Workflow.Gates.{os_version_matches}
use relops_bootstrap.Workflow.Versions.{IsRelease, os_version_matches_iff}
use relops_bootstrap.Prelude.{
  true, ◌↔◌, ◌≡◌, refl, some, ◌∷◌, ◌++◌, Text, codes, lower, skip, starts_with, strip, partition,
  text_eq,
}
use relops_bootstrap.Hostnames.{
  validate_short, validate_fqdn, worker_domain, IsWorkerName, validate_short-IsWorkerName,
  validate_fqdn-domain, matches_short, check_fqdn,
}
use relops_bootstrap.Hostnames.Roles.{HasItsRole, role_for_hostname-worker}

abbrev spaced : Text
spaced = codes "  MacMini-M4-81 "

abbrev plain : Text
plain = codes "macmini-m4-81"

spaced-plain : validate_short spaced ≡ some plain
unfolding validate_short matches_short starts_with lower strip skip
spaced-plain = refl

validate_short-IsWorkerName_example : IsWorkerName plain
validate_short-IsWorkerName_example = validate_short-IsWorkerName spaced plain spaced-plain

role_for_hostname-worker_example : HasItsRole plain
role_for_hostname-worker_example = role_for_hostname-worker spaced plain spaced-plain

abbrev full : Text
full = codes "macmini-r8-140-2.test.releng.mdc1.mozilla.com"

full-full : validate_fqdn full ≡ some full
unfolding validate_fqdn check_fqdn partition lower strip text_eq validate_short matches_short
    starts_with skip
full-full = refl

validate_fqdn-domain_example :
    (base n : Text) × (full ≡ base ++ (b'.' ∷ worker_domain))
    × (validate_short base ≡ some n)
    × IsWorkerName n
validate_fqdn-domain_example = validate_fqdn-domain full full full-full

-- A base that ends in a newline.
abbrev broken : Text
broken = codes "macmini-m4-1\n"

broken-accepted :
    validate_fqdn (broken ++ (b'.' ∷ worker_domain)) ≡ some (broken ++ (b'.' ∷ worker_domain))
unfolding validate_fqdn check_fqdn partition lower strip text_eq validate_short matches_short
    starts_with skip
broken-accepted = refl

os_version_matches_iff_example :
    (os_version_matches (codes "15.3.1") (codes "15.3") ≡ true)
    ↔ IsRelease (codes "15.3") (codes "15.3.1")
os_version_matches_iff_example = os_version_matches_iff (codes "15.3.1") (codes "15.3")
