-- ===== src/Sibling/Signature/Derived.antt =====
-- The signatures that are derived, against the checks of the constructor.
use Prim.Native.String.{compare}
use text.Mathlib.Text.{is_lt}
use deep_thought.Prelude.{
  ℕ, zero, suc, ◌≤◌, String, ◌≡◌, refl, sym, ap, ◌∙◌, inl, inr, Bool, true, false, not, ◌&&◌,
  Option, none, some, List, [], ◌∷◌, ◌==◌, eq_iff, keep, map, any, take, length, leb, member, arith,
  Bool-cases, if_ind,
}
use deep_thought.Prelude.Text.{strip}
use deep_thought.Ids.{take_chars}
use deep_thought.Ids.Safe.{size-take_chars}
use deep_thought.Result.{Result, ok, raise}
use deep_thought.Schema.Finding.{Finding, Reference}
use deep_thought.Schema.Envelope.{capability_taxonomy, Primitive, every, fits, fits_if}
use deep_thought.Sessions.Map.Loop.{fromkeys}
use deep_thought.Ingest.Capabilities.{heuristic, match_capability, or_else}
use deep_thought.Ingest.Primitives.Suspected.{IsKnown, or_else-IsKnown, match_capability-IsKnown}
use deep_thought.Sibling.Locations.{find_all}
use deep_thought.Sibling.Signature.{
  Signature, known_match_terms, signature_ok, short, last_of, earlier, bound_capability, first_url,
  locus_pattern, terms_of, match_terms, made, signature_of, from_capability, capability_of,
  signature_from_finding,
}

every-member :
    (p : String → Bool) (x : String) (xs : List String)
    → every p xs ≡ true
    → member x xs ≡ true
    → p x ≡ true
every-member p x [] h there = absurd (ground arith)
every-member p x (y ∷ ys) h there = elim (Bool-cases (y == x)) [
  | inl here ↦ ap p (sym ((eq_iff y x).0 here)) ∙ ground (arith, h)
  | inr other ↦ every-member p x ys (ground (arith, h)) (ground (arith, there, other))
]

every-fromkeys :
    (p : String → Bool) (seen xs : List String)
    → every p xs ≡ true
    → every p (fromkeys seen xs) ≡ true
unfolding fromkeys
every-fromkeys p seen [] h = refl
every-fromkeys p seen (x ∷ xs) h =
    ground (arith, h, every-fromkeys p seen xs, every-fromkeys p (x ∷ seen) xs)

every-take :
    (p : String → Bool) (n : ℕ) (xs : List String) → every p xs ≡ true → every p (take n xs) ≡ true
every-take p zero xs h = refl
every-take p (suc n) [] h = refl
every-take p (suc n) (x ∷ xs) h = ground (arith, h, every-take p n xs)

every-rows :
    (p : String → Bool) (capability : String) (rows : List (String × String))
    → every p (map (λ row. row.0) rows) ≡ true
    → every p (map (λ row. row.0) (keep (λ row. row.1 == capability) rows)) ≡ true
every-rows p capability [] h = refl
every-rows p capability ((needle, c) ∷ rows) h =
    let later = every-rows p capability rows (ground (arith, h)) in
    elim (Bool-cases (c == capability)) [
      | inl here ↦ rw here (ground (arith, h, later))
      | inr other ↦ rw other later
    ]

any-every :
    (p : String → Bool) (xs : List String) → every p xs ≡ true → any (λ t. not (p t)) xs ≡ false
any-every p [] h = refl
any-every p (x ∷ xs) h = ground (arith, h, any-every p xs)

length-take : (n : ℕ) (xs : List String) → length (take n xs) ≤ n
length-take zero xs = omega arith
length-take (suc n) [] = omega arith
length-take (suc n) (x ∷ xs) = omega (arith, length-take n xs)

match_terms-every :
    (p : String → Bool) (capability : String)
    → every p (map (λ row. row.0) heuristic) ≡ true
    → every p (match_terms capability) ≡ true
unfolding match_terms terms_of
match_terms-every p capability h =
    every-take p 32 (fromkeys [] (terms_of capability))
      (every-fromkeys p [] (terms_of capability) (every-rows p capability heuristic h))

needles-fit : every (λ t. fits 64 t) (map (λ row. row.0) heuristic) ≡ true
unfolding heuristic
needles-fit = refl

needles-known : every (λ t. member t known_match_terms) (map (λ row. row.0) heuristic) ≡ true
unfolding heuristic known_match_terms
needles-known = refl

capability-fits : every (λ c. fits 128 c) capability_taxonomy ≡ true
capability-fits = refl

fits-take_chars : (n : ℕ) (s : String) → fits n (take_chars n s) ≡ true
fits-take_chars n s = ground (arith, size-take_chars n s)

fits_if-short : (o : Option String) → fits_if 256 (short o) ≡ true
unfolding short
fits_if-short none = refl
fits_if-short (some s) =
    if_ind (λ o. fits_if 256 o ≡ true) (strip s == "") none (some (take_chars 256 (strip s)))
      (λ _. refl) (λ _. fits-take_chars 256 (strip s))

fits_if-or_else :
    (a b : Option String)
    → fits_if 256 a ≡ true
    → fits_if 256 b ≡ true
    → fits_if 256 (or_else a b) ≡ true
fits_if-or_else none b ha hb = hb
fits_if-or_else (some s) b ha hb = ha

fits_if-first_url : (rs : List Reference) → fits_if 256 (first_url rs) ≡ true
unfolding first_url
fits_if-first_url [] = refl
fits_if-first_url (r ∷ rs) =
    fits_if-or_else (short (some r.url)) (first_url rs) (fits_if-short (some r.url))
      (fits_if-first_url rs)

fits_if-locus_pattern : (f : Finding) → fits_if 256 (locus_pattern f) ≡ true
unfolding locus_pattern
fits_if-locus_pattern f =
    fits_if-or_else (short (last_of (find_all f.body))) (first_url f.references)
      (fits_if-short (last_of (find_all f.body))) (fits_if-first_url f.references)

few_terms : (capability : String) → leb (length (match_terms capability)) 32 ≡ true
unfolding match_terms
few_terms capability = ground (arith, length-take 32 (fromkeys [] (terms_of capability)))

signature_of-ok :
    (f : Finding) (capability : String)
    → member capability capability_taxonomy ≡ true
    → signature_ok (signature_of f capability) ≡ true
unfolding signature_ok signature_of
signature_of-ok f capability known =
    let terms = match_terms capability in
    let short_id = fits-take_chars 128 f.id in
    let short_project = fits-take_chars 128 f.project in
    let short_name =
      every-member (λ c. fits 128 c) capability capability_taxonomy capability-fits known in
    let short_terms = match_terms-every (λ t. fits 64 t) capability needles-fit in
    let keys =
      any-every (λ t. member t known_match_terms) terms
        (match_terms-every (λ t. member t known_match_terms) capability needles-known) in
    rw short_id (
      rw short_project (
        rw short_name (
          rw (fits_if-locus_pattern f)
            (rw short_terms (rw (few_terms capability) (rw known (rw keys refl)))))))

-- what a derivation comes to: nothing if there is no class, or a signature of the finding under its
-- class that passes every check
abbrev pub IsDerived : Finding → Option String → Result (Option Signature) → Type 0
IsDerived f capability (raise e) = ⊥
IsDerived f capability (ok none) = capability ≡ none
IsDerived f capability (ok (some g)) =
    (signature_ok g ≡ true) × (capability ≡ some g.capability) × (g ≡ signature_of f g.capability)

made-IsDerived :
    (f : Finding) (capability : String)
    → member capability capability_taxonomy ≡ true
    → IsDerived f (some capability) (made (signature_of f capability))
unfolding signature_of
made-IsDerived f capability known =
    rw (signature_of-ok f capability known) (signature_of-ok f capability known, refl, refl)

not_both : (b : Bool) → b ≡ true → not b ≡ true → ⊥
not_both true h k = cc
not_both false h k = cc

from_capability-IsDerived :
    (f : Finding) (o : Option String) → IsKnown o → IsDerived f o (from_capability f o)
unfolding from_capability
from_capability-IsDerived f none known = refl
from_capability-IsDerived f (some capability) known =
    if_ind (λ r. IsDerived f (some capability) r) (not (member capability capability_taxonomy))
      (ok none) (made (signature_of f capability))
      (λ unknown. absurd (not_both (member capability capability_taxonomy) known unknown))
      (λ _. made-IsDerived f capability known)

earlier-IsKnown :
    (k : String) (o : Option String) → IsKnown (some k) → IsKnown o → IsKnown (earlier k o)
earlier-IsKnown k none hk ho = hk
earlier-IsKnown k (some j) hk ho =
    if_ind IsKnown (is_lt (compare j k)) (some j) (some k) (λ _. ho) (λ _. hk)

both_true : (a b : Bool) → (a && b) ≡ true → b ≡ true
both_true true b h = h
both_true false b h = absurd (cc)

bound_capability-IsKnown : (f : Finding) (ps : List Primitive) → IsKnown (bound_capability f ps)
unfolding bound_capability
bound_capability-IsKnown f [] = tt
bound_capability-IsKnown f (p ∷ ps) =
    let later = bound_capability f ps in
    let known = bound_capability-IsKnown f ps in
    if_ind IsKnown (p.finding_ref == f.id && member p.kind capability_taxonomy)
      (earlier p.kind later) later
      (λ h.
        earlier-IsKnown p.kind later
          (both_true (p.finding_ref == f.id) (member p.kind capability_taxonomy) h) known)
      (λ _. known)

-- The derivation of a signature never raises, whatever the finding says. Without a class, which a bound
-- primitive or the summary has, it gives nothing; with one it gives the signature of the finding under
-- it, which passes every check of the constructor: its texts and its terms are bounded, its capability
-- is in the taxonomy, and its terms are keys of the table.
pub signature_from_finding-IsDerived :
    (is_wide : ℕ → Bool) (f : Finding) (primitives : List Primitive)
    → IsDerived f (capability_of is_wide f primitives) (signature_from_finding is_wide f primitives)
unfolding signature_from_finding capability_of
signature_from_finding-IsDerived is_wide f primitives =
    let bound = bound_capability f primitives in
    let named = match_capability is_wide (some f.summary) [] in
    from_capability-IsDerived f (or_else bound named) (
      or_else-IsKnown bound named (bound_capability-IsKnown f primitives)
        (match_capability-IsKnown is_wide (some f.summary) []))
