-- ===== src/Health/Parsers.antt =====
-- `_etime_s`, `_kv` and `_api_base`.
use relops_bootstrap.Prelude.{
  ℕ, ◌+◌, ◌*◌, Bool, ◌&&◌, not, Option, none, some, List, [], ◌∷◌, ◌++◌, Text, codes, text_eq,
  is_empty, strip, partition, rstrip, starts_with, reverse, all_of, ◌==◌, if◌then◌else◌,
}
use relops_bootstrap.Hostnames.{is_decimal, zero_digits}
use relops_bootstrap.Workflow.Capture.{split_lines, digit_value}

-- `s.isdigit()`, on the decimal digits; the other digits of Unicode, which `int` refuses, are left out.
unfoldable pub is_digits : Text → Bool
is_digits s = not (is_empty s) && all_of is_decimal s

-- The value of one digit.
unfoldable pub or_zero : Option ℕ → ℕ
or_zero none = 0
or_zero (some d) = d

unfoldable pub digit_of : ℕ → ℕ
unfolding or_zero
digit_of c = or_zero (digit_value zero_digits c)

-- `int(s)` of digits, after those that make up `acc`; the `ValueError` for more than 4300 digits is left
-- out.
unfoldable pub number_from : ℕ → Text → ℕ
unfolding digit_of
number_from acc [] = acc
number_from acc (c ∷ s) = number_from (acc * 10 + digit_of c) s

unfoldable pub number : Text → ℕ
unfolding number_from
number s = number_from 0 s

unfoldable pub to_front : ℕ → List Text → List Text
to_front c [] = (c ∷ []) ∷ []
to_front c (p ∷ ps) = (c ∷ p) ∷ ps

-- `s.split(sep)` for a single character.
unfoldable pub split : ℕ → Text → List Text
unfolding to_front
split sep [] = [] ∷ []
split sep (c ∷ s) = let rest = split sep s in if c == sep then [] ∷ rest else to_front c rest

-- `[[hh:]mm:]ss`, after the days; two or three parts.
unfoldable pub clock_s : ℕ → List Text → Option ℕ
unfolding is_digits number
clock_s days (m ∷ s ∷ []) =
    if is_digits m && is_digits s then some (days * 86400 + number m * 60 + number s) else none
clock_s days (h ∷ m ∷ s ∷ []) =
    if is_digits h && (is_digits m && is_digits s)
    then some (days * 86400 + number h * 3600 + number m * 60 + number s)
    else none
clock_s days _ = none

unfoldable pub days_s : Text × Option Text → Text → Option ℕ
unfolding split clock_s
days_s (d, none) v = clock_s 0 (split b':' v)
days_s (d, some rest) v = if is_digits d then clock_s (number d) (split b':' rest) else none

-- `_etime_s`
unfoldable pub etime_s : Text → Option ℕ
unfolding days_s
etime_s v = if is_empty v then none else days_s (partition b'-' v) v

-- A dict of texts, in the order of insertion.
abbrev pub Facts : Type 0
Facts = List (Text × Text)

unfoldable pub lookup : Text → Facts → Option Text
lookup key [] = none
lookup key ((k, v) ∷ kvs) = if text_eq key k then some v else lookup key kvs

unfoldable pub store : Text → Text → Facts → Facts
store key value [] = (key, value) ∷ []
store key value ((k, v) ∷ kvs) =
    let rest = store key value kvs in if text_eq key k then (k, value) ∷ kvs else (k, v) ∷ rest

-- One line: what follows the first `=`, if anything does.
unfoldable pub add_line : Text × Option Text → Facts → Facts
unfolding store
add_line (k, none) out = out
add_line (k, some v) out = if is_empty (strip v) then out else store (strip k) (strip v) out

unfoldable pub add_lines : List Text → Facts → Facts
unfolding add_line
add_lines [] out = out
add_lines (line ∷ lines) out = add_lines lines (add_line (partition b'=' line) out)

-- `_kv`
unfoldable pub kv : Text → Facts
unfolding add_lines
kv text = add_lines (split_lines text) []

-- `url.endswith(suffix)`
unfoldable pub ends_with : Text → Text → Bool
ends_with s suffix = starts_with (reverse s) (reverse suffix)

-- `_api_base`
unfoldable pub api_base : Text → Text
unfolding ends_with
api_base url =
    let bare = rstrip b'/' url in
    if ends_with bare (codes "/api") then bare else bare ++ codes "/api"
