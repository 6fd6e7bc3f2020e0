-- ===== src/Ingest/Documents/VulnIds.antt =====
-- The identifiers that are read off a result, and their sizes.
use Prim.Native.Char.{code}
use deep_thought.Prelude.{
  ◌+◌, ◌≤◌, String, ◌≡◌, inl, inr, Bool, true, Option, none, some, eq_iff, eqb, leb, leb→le, ap,
  arith, Bool-cases, Option-cases, if_ind,
}
use deep_thought.Prelude.Text.{after, strip}
use deep_thought.Ids.{size}
use deep_thought.Schema.Json.{Fields}
use deep_thought.Ingest.Patterns.{is_cve, is_cwe, upper, is_digit, digit_run, digits_to_end}
use deep_thought.Ingest.Documents.{matching, as_text, merged, known_vuln_ids}

-- what an optional text satisfies, if it is there
abbrev pub IfSome : (String → Type 0) → Option String → Type 0
IfSome P none = Unit
IfSome P (some s) = P s

matching-IfSome :
    (pattern : String → Bool) (o : Option String)
    → IfSome (λ s. pattern s ≡ true) (matching pattern o)
matching-IfSome pattern none = tt
matching-IfSome pattern (some value) =
    let id = upper (strip value) in
    if_ind (λ o. IfSome (λ s. pattern s ≡ true) o) (pattern id) (some id) none (λ h. h) (λ _. tt)

pub known_vuln_ids-forms :
    (result : Fields) (rule : Option Fields)
    → IfSome (λ s. is_cve s ≡ true) ((known_vuln_ids result rule).0)
      × IfSome (λ s. is_cwe s ≡ true) ((known_vuln_ids result rule).1)
unfolding known_vuln_ids
known_vuln_ids-forms result rule = (
  matching-IfSome (λ s. is_cve s) (as_text (merged result rule "cve")),
  matching-IfSome (λ s. is_cwe s) (as_text (merged result rule "cwe")),
)

some_text : (s t : String) → some s ≡ some t → size s ≡ size t
some_text s t h = cc

size-after : (p s t : String) → after p s ≡ some t → size s ≡ size p + size t
unfolding after
size-after String.[] s t h = omega (arith, some_text s t h)
size-after (String.◌∷◌ c p) String.[] t h = cc
size-after (String.◌∷◌ c p) (String.◌∷◌ d s) t h = elim (Bool-cases (eqb (code c) (code d))) [
  | inl same ↦ omega (arith, size-after p s t (rw same at h))
  | inr differ ↦ absurd (ground arith)
]

size-digit_run : (s : String) → size s ≡ (digit_run s).0 + size ((digit_run s).1)
unfolding digit_run
size-digit_run String.[] = omega arith
size-digit_run (String.◌∷◌ c s) = elim (Bool-cases (is_digit (code c))) [
  | inl h ↦ rw h (omega (arith, size-digit_run s))
  | inr h ↦ rw h (omega arith)
]

size-digits_to_end : (s : String) → digits_to_end 1 7 s ≡ true → size s ≤ 7
size-digits_to_end s h =
    let (n, rest) = digit_run s in
    let few : leb n 7 ≡ true = ground arith in
    let done : rest ≡ "" = ground (arith, eq_iff rest "") in
    omega (arith, size-digit_run s, leb→le n 7 few, ap size done)

-- A weakness has a short name.
pub size-is_cwe : (s : String) → is_cwe s ≡ true → size s ≤ 11
unfolding is_cwe
size-is_cwe s h = elim (Option-cases (after "CWE-" s)) [
  | inl gone ↦ absurd (ground arith)
  | inr (rest, found) ↦
      omega (arith, size-after "CWE-" s rest found, size-digits_to_end rest (ground arith))
]
