-- ===== src/Batch/Unique.antt =====
-- batch.py, `read_host_file`: what a host list that is accepted holds.
use relops_bootstrap.Prelude.{
  arith, ℕ, ◌≡◌, ◌≢◌, refl, sym, subst, ap, ◌⊎◌, inl, inr, Bool, true, false, not, ◌&&◌, Option,
  none, some, List, [], ◌∷◌, Text, text_eq, text_eq→eq, text_eq_refl, is_empty, All, if◌then◌else◌,
  Bool-cases, ◌==◌,
}
use relops_bootstrap.Effects.{ok}
use relops_bootstrap.Hostnames.{validate_short, IsWorkerName, validate_short-IsWorkerName}
use relops_bootstrap.Workflow.Capture.{split_lines}
use relops_bootstrap.Batch.Hosts.{
  host_name, add_line, scan_lines, is_in, unique, checked_hosts, read_host_file,
}

-- No text stands in the list twice.
abbrev pub distinct : List Text → Bool
distinct [] = true
distinct (h ∷ hs) = not (is_in h hs) && distinct hs

is_in-subst : (h k : Text) (l : List Text) → text_eq h k ≡ true → is_in k l ≡ is_in h l
is_in-subst h k l e = ap (λ x. is_in x l) (sym (text_eq→eq h k e))

-- What has been seen does not come again.
unique-unseen :
    (h : Text) (seen hosts : List Text) → is_in h seen ≡ true → is_in h (unique seen hosts) ≡ false
unfolding unique is_in
unique-unseen h seen [] e = refl
unique-unseen h seen (k ∷ hosts) e = elim (Bool-cases (is_in k seen)) [
  | inl old ↦ ground (arith, old, unique-unseen h seen hosts e)
  | inr new ↦ elim (Bool-cases (text_eq h k)) [
    | inl same ↦ ground (arith, same, new, e, is_in-subst h k seen same)
    | inr other ↦
        ground (arith, other, new, e, unique-unseen h (k ∷ seen) hosts (ground (arith, e)))
  ]
]

is_in-head : (h : Text) (l : List Text) → is_in h (h ∷ l) ≡ true
unfolding is_in
is_in-head h l = ground (arith, text_eq_refl h)

unique-distinct : (seen hosts : List Text) → distinct (unique seen hosts) ≡ true
unfolding unique
unique-distinct seen [] = refl
unique-distinct seen (h ∷ hosts) = elim (Bool-cases (is_in h seen)) [
  | inl old ↦ ground (arith, old, unique-distinct seen hosts)
  | inr new ↦ ground (
    arith,
    new,
    unique-distinct (h ∷ seen) hosts,
    unique-unseen h (h ∷ seen) hosts (is_in-head h seen),
  )
]

-- Nothing that has not been seen is lost.
pub unique-keeps :
    (h : Text) (seen hosts : List Text)
    → is_in h hosts ≡ true
    → is_in h seen ≡ false
    → is_in h (unique seen hosts) ≡ true
unfolding unique is_in
unique-keeps h seen [] e n = absurd (cc)
unique-keeps h seen (k ∷ hosts) e n = elim (Bool-cases (text_eq h k)) [
  | inl same ↦ ground (arith, same, n, is_in-subst h k seen same)
  | inr other ↦ elim (Bool-cases (is_in k seen)) [
    | inl old ↦ ground (arith, old, other, unique-keeps h seen hosts (ground (arith, e, other)) n)
    | inr new ↦ ground (
      arith,
      new,
      other,
      unique-keeps h (k ∷ seen) hosts (ground (arith, e, other)) (ground (arith, other, n)),
    )
  ]
]

-- The line names no host, or a host of the list.
abbrev pub IsListed : List Text → Text → Type 0
IsListed hosts line =
    (is_empty (host_name line) ≡ true)
    ⊎ ((host : Text) × (validate_short (host_name line) ≡ some host) × (is_in host hosts ≡ true))

IsListed-cons :
    (h : Text) (hosts : List Text) (line : Text) → IsListed hosts line → IsListed (h ∷ hosts) line
unfolding is_in
IsListed-cons h hosts line (inl e) = inl e
IsListed-cons h hosts line (inr (host, v, e)) = inr (host, v, ground (arith, e))

All-IsListed-cons :
    (h : Text) (hosts lines : List Text)
    → All (IsListed hosts) lines
    → All (IsListed (h ∷ hosts)) lines
All-IsListed-cons h hosts [] a = a
All-IsListed-cons h hosts (l ∷ ls) a =
    (IsListed-cons h hosts l a.0, All-IsListed-cons h hosts ls a.1)

-- What the scan of some lines has found, if it met no problem.
abbrev Scanned : List Text → List Text × ℕ → Type 0
Scanned lines r = r.1 ≡ 0 → All IsWorkerName r.0 × All (IsListed r.0) lines

add_line-Scanned :
    (line : Text) (lines : List Text) (o : Option Text) (r : List Text × ℕ)
    → validate_short (host_name line) ≡ o
    → Scanned lines r
    → Scanned (line ∷ lines) (add_line o r)
unfolding add_line
add_line-Scanned line lines none r v s = λ e. absurd (omega (arith, e))
add_line-Scanned line lines (some host) r v s = λ e.
    let (names, listed) = s e in
    (
      (validate_short-IsWorkerName (host_name line) host v, names),
      (inr (host, v, is_in-head host r.0), All-IsListed-cons host r.0 lines listed),
    )

Scanned-blank :
    (line : Text) (lines : List Text) (r : List Text × ℕ)
    → is_empty (host_name line) ≡ true
    → Scanned lines r
    → Scanned (line ∷ lines) r
Scanned-blank line lines r blank s = λ e. let (names, listed) = s e in (names, (inl blank, listed))

-- Whichever way a test goes.
if-cases :
    {A : Type 0} (P : A → Type 0) (b : Bool) (x y : A)
    → (b ≡ true → P x)
    → (b ≡ false → P y)
    → P (if b then x else y)
if-cases P true x y px py = px refl
if-cases P false x y px py = py refl

scan_lines-Scanned : (lines : List Text) → Scanned lines (scan_lines lines)
unfolding scan_lines
scan_lines-Scanned [] = λ e. (tt, tt)
scan_lines-Scanned (line ∷ lines) =
    if-cases (Scanned (line ∷ lines)) (is_empty (host_name line)) (scan_lines lines) _
      (λ blank. Scanned-blank line lines (scan_lines lines) blank (scan_lines-Scanned lines))
      (λ _. add_line-Scanned line lines _ (scan_lines lines) refl (scan_lines-Scanned lines))

unique-All : (P : Text → Type 0) (seen hosts : List Text) → All P hosts → All P (unique seen hosts)
unfolding unique
unique-All P seen [] a = a
unique-All P seen (h ∷ hosts) a =
    if-cases (All P) (is_in h seen) (unique seen hosts) (h ∷ unique (h ∷ seen) hosts)
      (λ _. unique-All P seen hosts a.1) (λ _. (a.0, unique-All P (h ∷ seen) hosts a.1))

unique-IsListed :
    (hosts lines : List Text) → All (IsListed hosts) lines → All (IsListed (unique [] hosts)) lines
unfolding is_in
unique-IsListed hosts [] a = a
unique-IsListed hosts (l ∷ ls) (inl e, a) = (inl e, unique-IsListed hosts ls a)
unique-IsListed hosts (l ∷ ls) (inr (h, v, e), a) =
    (inr (h, v, unique-keeps h [] hosts e refl), unique-IsListed hosts ls a)

unique-cons : (h : Text) (found : List Text) → unique [] (h ∷ found) ≢ []
unfolding unique is_in
unique-cons h found = λ e. cc

-- What a host list that is accepted holds.
abbrev pub IsHostList : Text → List Text → Type 0
IsHostList raw hosts =
    (hosts ≢ [])
    × (distinct hosts ≡ true)
    × All IsWorkerName hosts
    × All (IsListed hosts) (split_lines raw)

unique-IsHostList :
    (raw : Text) (h : Text) (found : List Text)
    → All IsWorkerName (h ∷ found) × All (IsListed (h ∷ found)) (split_lines raw)
    → IsHostList raw (unique [] (h ∷ found))
unique-IsHostList raw h found (names, listed) = (
  unique-cons h found,
  unique-distinct [] (h ∷ found),
  unique-All IsWorkerName [] (h ∷ found) names,
  unique-IsListed (h ∷ found) (split_lines raw) listed,
)

checked_hosts-IsHostList :
    (raw : Text) (found : List Text) (problems : ℕ) (hosts : List Text)
    → Scanned (split_lines raw) (found, problems)
    → checked_hosts found problems ≡ ok hosts
    → IsHostList raw hosts
unfolding checked_hosts
checked_hosts-IsHostList raw [] problems hosts s e = elim (Bool-cases (problems == 0)) [
  | inl z ↦ absurd (ground (arith, z, e))
  | inr n ↦ absurd (ground (arith, n, e))
]
checked_hosts-IsHostList raw (h ∷ found) problems hosts s e = elim (Bool-cases (problems == 0)) [
  | inl z ↦
      let same : unique [] (h ∷ found) ≡ hosts = ground (arith, z, e) in
      subst (IsHostList raw) same (unique-IsHostList raw h found (s (ground (arith, z))))
  | inr n ↦ absurd (ground (arith, n, e))
]

-- When `read_host_file` accepts a file, its list is not empty and names no host twice, each name in
-- it is a worker's, and each line of the file is blank or a comment, or names a host of the list.
pub read_host_file-IsHostList :
    (raw : Text) (hosts : List Text) → read_host_file (some raw) ≡ ok hosts → IsHostList raw hosts
unfolding read_host_file
read_host_file-IsHostList raw hosts e =
    checked_hosts-IsHostList raw _ _ hosts (scan_lines-Scanned (split_lines raw)) e
