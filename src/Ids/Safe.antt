-- ===== src/Ids/Safe.antt =====
-- The ids that the program derives against the pattern of a record id.
use Prim.Native.Char.{code}
use Prim.Native.Char.{Char}
use deep_thought.Prelude.{
  if_ind, ℕ, zero, suc, ◌≤◌, String, ◌≡◌, ◌≢◌, refl, inl, inr, Bool, true, false, not, eq_iff,
  arith, Bool-cases,
}
use deep_thought.Prelude.Text.{strip_of, lstrip_of, rstrip_of, onto_stripped}
use deep_thought.Ids.{
  is_mark, is_id_char, size, ends_well, is_record_id, dashed, take_chars, slug, safe_record_id,
}

-- every character is allowed in an id
abbrev AllSafe : String → Type 0
AllSafe String.[] = Unit
AllSafe (String.◌∷◌ c s) = (is_id_char (code c) ≡ true) × AllSafe s

-- the text does not begin with a mark
abbrev StartsWell : String → Type 0
StartsWell String.[] = Unit
StartsWell (String.◌∷◌ c s) = is_mark (code c) ≡ false

abbrev marks : ℕ → Bool
marks c = is_mark c

dashed-AllSafe : (run : Bool) (s : String) → AllSafe (dashed run s)
unfolding dashed
dashed-AllSafe run String.[] = tt
dashed-AllSafe run (String.◌∷◌ c s) =
    let t = dashed (not (is_id_char (code c))) s in
    let rest = dashed-AllSafe (not (is_id_char (code c))) s in
    if_ind AllSafe (is_id_char (code c)) (String.◌∷◌ c t) _ (λ safe. (safe, rest))
      (λ _. if_ind AllSafe run t (String.◌∷◌ "-" t) (λ _. rest) (λ _. (refl, rest)))

lstrip_of-AllSafe : (s : String) → AllSafe s → AllSafe (lstrip_of marks s)
unfolding lstrip_of
lstrip_of-AllSafe String.[] h = tt
lstrip_of-AllSafe (String.◌∷◌ c s) h =
    if_ind AllSafe (marks (code c)) (lstrip_of marks s) (String.◌∷◌ c s)
      (λ _. lstrip_of-AllSafe s h.1) (λ _. h)

lstrip_of-StartsWell : (s : String) → StartsWell (lstrip_of marks s)
unfolding lstrip_of
lstrip_of-StartsWell String.[] = tt
lstrip_of-StartsWell (String.◌∷◌ c s) =
    if_ind StartsWell (marks (code c)) (lstrip_of marks s) (String.◌∷◌ c s)
      (λ _. lstrip_of-StartsWell s) (λ no_mark. no_mark)

-- What a strip at the right end leaves of safe characters ends in a letter or digit.
onto_stripped-good :
    (c : Char) (s : String)
    → is_id_char (code c) ≡ true
    → AllSafe s
    → ends_well s ≡ true
    → (AllSafe (onto_stripped (marks (code c)) c s))
      × (ends_well (onto_stripped (marks (code c)) c s) ≡ true)
unfolding ends_well
onto_stripped-good c String.[] safe h e = elim (Bool-cases (marks (code c))) [
  | inl m ↦ rw m (tt, refl)
  | inr m ↦ rw m ((safe, tt), ground arith)
]
onto_stripped-good c (String.◌∷◌ d s) safe h e = ((safe, h), ground arith)

rstrip_of-good :
    (s : String)
    → AllSafe s
    → (AllSafe (rstrip_of marks s)) × (ends_well (rstrip_of marks s) ≡ true)
unfolding rstrip_of ends_well
rstrip_of-good String.[] h = (tt, refl)
rstrip_of-good (String.◌∷◌ c s) h =
    let (safe, ends) = rstrip_of-good s h.1 in onto_stripped-good c _ h.0 safe ends

onto_stripped-StartsWell :
    (b : Bool) (c : Char) (s : String) → is_mark (code c) ≡ false → StartsWell (onto_stripped b c s)
onto_stripped-StartsWell true c String.[] h = tt
onto_stripped-StartsWell false c String.[] h = h
onto_stripped-StartsWell b c (String.◌∷◌ d s) h = h

rstrip_of-StartsWell : (s : String) → StartsWell s → StartsWell (rstrip_of marks s)
unfolding rstrip_of
rstrip_of-StartsWell String.[] h = tt
rstrip_of-StartsWell (String.◌∷◌ c s) h = onto_stripped-StartsWell _ c (rstrip_of marks s) h

take_chars-AllSafe : (n : ℕ) (s : String) → AllSafe s → AllSafe (take_chars n s)
unfolding take_chars
take_chars-AllSafe zero s h = tt
take_chars-AllSafe (suc n) String.[] h = tt
take_chars-AllSafe (suc n) (String.◌∷◌ c s) h = (h.0, take_chars-AllSafe n s h.1)

pub size-take_chars : (n : ℕ) (s : String) → size (take_chars n s) ≤ n
unfolding take_chars
size-take_chars zero s = omega arith
size-take_chars (suc n) String.[] = omega arith
size-take_chars (suc n) (String.◌∷◌ c s) = omega (arith, size-take_chars n s)

size-lstrip_of : (s : String) → size (lstrip_of marks s) ≤ size s
unfolding lstrip_of
size-lstrip_of String.[] = omega arith
size-lstrip_of (String.◌∷◌ c s) =
    if_ind (λ t. size t ≤ suc (size s)) (marks (code c)) (lstrip_of marks s) (String.◌∷◌ c s)
      (λ _. omega (arith, size-lstrip_of s)) (λ _. omega arith)

size-onto_stripped : (b : Bool) (c : Char) (s : String) → size (onto_stripped b c s) ≤ suc (size s)
size-onto_stripped true c String.[] = omega arith
size-onto_stripped false c String.[] = omega arith
size-onto_stripped b c (String.◌∷◌ d s) = omega arith

size-rstrip_of : (s : String) → size (rstrip_of marks s) ≤ size s
unfolding rstrip_of
size-rstrip_of String.[] = omega arith
size-rstrip_of (String.◌∷◌ c s) =
    omega (arith, size-onto_stripped (marks (code c)) c (rstrip_of marks s), size-rstrip_of s)

is_record_id_of :
    (s : String)
    → s ≢ ""
    → AllSafe s
    → StartsWell s
    → ends_well s ≡ true
    → size s ≤ 128
    → is_record_id s ≡ true
unfolding is_record_id
is_record_id_of String.[] n h w e b = absurd (n refl)
is_record_id_of (String.◌∷◌ c String.[]) n h w e b = ground arith
is_record_id_of (String.◌∷◌ c (String.◌∷◌ d s)) n h w e b = ground arith

slug-is_record_id : (raw : String) → slug raw ≢ "" → is_record_id (slug raw) ≡ true
unfolding slug strip_of
slug-is_record_id raw n =
    let dashes = dashed false raw in
    let left = lstrip_of marks dashes in
    let first = rstrip_of marks left in
    let cut = take_chars 128 first in
    let first_good = rstrip_of-good left (lstrip_of-AllSafe dashes (dashed-AllSafe false raw)) in
    let cut_safe = take_chars-AllSafe 128 first first_good.0 in
    let last_good = rstrip_of-good (lstrip_of marks cut) (lstrip_of-AllSafe cut cut_safe) in
    is_record_id_of _ n last_good.0 (rstrip_of-StartsWell _ (lstrip_of-StartsWell cut)) last_good.1
      (omega (
        arith,
        size-rstrip_of (lstrip_of marks cut),
        size-lstrip_of cut,
        size-take_chars 128 first,
      ))

-- The id that any text is coerced to matches the pattern, if the fallback does.
pub safe_record_id-is_record_id :
    (raw fallback : String)
    → is_record_id fallback ≡ true
    → is_record_id (safe_record_id raw fallback) ≡ true
unfolding safe_record_id
safe_record_id-is_record_id raw fallback h =
    if_ind (λ t. is_record_id t ≡ true) _ _ _ (λ _. h)
      (λ e. slug-is_record_id raw (λ p. ground (arith, eq_iff (slug raw) "")))
