-- ===== src/Hostnames/Defs.antt =====
-- `validate_short`, `validate_fqdn` and `role_for_hostname`.
use relops_bootstrap.Prelude.{
  ℕ, ◌+◌, Bool, true, false, ◌&&◌, ◌||◌, Option, none, some, List, [], ◌∷◌, Text, codes, text_eq,
  starts_with, skip, strip, lower, partition, leb, ltb, if◌then◌else◌,
}

-- The code points of the zero digits of Unicode's decimal numbers; the nine others follow each. The table
-- is that of Unicode 14, as in Python 3.11, the oldest version that the project runs on.
abbrev pub zero_digits : List ℕ
zero_digits =
    0x30 ∷ 0x660 ∷ 0x6F0 ∷ 0x7C0 ∷ 0x966 ∷ 0x9E6 ∷ 0xA66 ∷ 0xAE6 ∷ 0xB66 ∷ 0xBE6 ∷ 0xC66 ∷ 0xCE6
    ∷ 0xD66 ∷ 0xDE6 ∷ 0xE50 ∷ 0xED0 ∷ 0xF20 ∷ 0x1040 ∷ 0x1090 ∷ 0x17E0 ∷ 0x1810 ∷ 0x1946 ∷ 0x19D0
    ∷ 0x1A80 ∷ 0x1A90 ∷ 0x1B50 ∷ 0x1BB0 ∷ 0x1C40 ∷ 0x1C50 ∷ 0xA620 ∷ 0xA8D0 ∷ 0xA900 ∷ 0xA9D0
    ∷ 0xA9F0 ∷ 0xAA50 ∷ 0xABF0 ∷ 0xFF10 ∷ 0x104A0 ∷ 0x10D30 ∷ 0x11066 ∷ 0x110F0 ∷ 0x11136 ∷ 0x111D0
    ∷ 0x112F0 ∷ 0x11450 ∷ 0x114D0 ∷ 0x11650 ∷ 0x116C0 ∷ 0x11730 ∷ 0x118E0 ∷ 0x11950 ∷ 0x11C50
    ∷ 0x11D50 ∷ 0x11DA0 ∷ 0x16A60 ∷ 0x16AC0 ∷ 0x16B50 ∷ 0x1D7CE ∷ 0x1D7D8 ∷ 0x1D7E2 ∷ 0x1D7EC
    ∷ 0x1D7F6 ∷ 0x1E140 ∷ 0x1E2F0 ∷ 0x1E950 ∷ 0x1FBF0 ∷ []

unfoldable pub in_digits : List ℕ → ℕ → Bool
in_digits [] c = false
in_digits (z ∷ zs) c = (leb z c && ltb c (z + 10)) || in_digits zs c

-- `\d`
unfoldable pub is_decimal : ℕ → Bool
unfolding in_digits
is_decimal c = in_digits zero_digits c

-- What follows the longest run of digits.
unfoldable pub skip_digits : Text → Text
unfolding is_decimal
skip_digits [] = []
skip_digits (c ∷ s) = let rest = skip_digits s in if is_decimal c then rest else c ∷ s

-- `\d+`: what follows the run, if there is at least one digit.
unfoldable pub digits : Text → Option Text
unfolding skip_digits
digits [] = none
digits (c ∷ s) = if is_decimal c then some (skip_digits s) else none

-- `$` holds at the end, and before a newline that is the last character.
unfoldable pub at_end : Text → Bool
at_end [] = true
at_end (c ∷ []) = leb 10 c && leb c 10
at_end (c ∷ d ∷ s) = false

-- `-\d+$`
unfoldable pub sub_index : Text → Bool
unfolding digits at_end
sub_index s =
    if starts_with s (codes "-")
    then elim (digits (skip s (codes "-"))) [ none ↦ false | some rest ↦ at_end rest ]
    else false

-- `\d+(-\d+)?$`
unfoldable pub numbers : Text → Bool
unfolding sub_index
numbers s = elim (digits s) [ none ↦ false | some rest ↦ at_end rest || sub_index rest ]

abbrev pub m4_prefix : Text
m4_prefix = codes "macmini-m4-"

abbrev pub r8_prefix : Text
r8_prefix = codes "macmini-r8-"

-- `_SHORT_RE.match`: `^macmini-(m4|r8)-\d+(-\d+)?$`
unfoldable pub matches_short : Text → Bool
unfolding numbers
matches_short s =
    (starts_with s m4_prefix && numbers (skip s m4_prefix))
    || (starts_with s r8_prefix && numbers (skip s r8_prefix))

unfoldable pub validate_short : Text → Option Text
validate_short hostname =
    let short = lower (strip hostname) in if matches_short short then some short else none

abbrev pub worker_domain : Text
worker_domain = codes "test.releng.mdc1.mozilla.com"

-- The domain is compared, then the base is validated; what is returned is the whole name.
unfoldable pub check_fqdn : Text → Text → Option Text → Option Text
check_fqdn raw base none = none
check_fqdn raw base (some domain) =
    if text_eq domain worker_domain
    then elim (validate_short base) [ none ↦ none | some _ ↦ some raw ]
    else none

unfoldable pub split_fqdn : Text → Option Text
split_fqdn raw = let (base, domain) = partition b'.' raw in check_fqdn raw base domain

unfoldable pub validate_fqdn : Text → Option Text
unfolding split_fqdn
validate_fqdn fqdn = split_fqdn (lower (strip fqdn))

-- `DEFAULT_PATTERNS`, tried in order.
abbrev pub default_patterns : List (Text × Text)
default_patterns =
    (codes "macmini-m4-", codes "gecko_t_osx_1500_m4")
    ∷ (codes "macmini-r8-140-", codes "gecko_t_osx_1400_r8")
    ∷ (codes "macmini-r8-", codes "gecko_t_osx_1400_r8")
    ∷ []

unfoldable pub first_role : List (Text × Text) → Text → Option Text
first_role [] base = none
first_role ((prefix, role) ∷ patterns) base =
    if starts_with base prefix then some role else first_role patterns base

unfoldable pub role_for_hostname : Text → Option Text
unfolding first_role
role_for_hostname hostname = first_role default_patterns (partition b'.' hostname).0
