-- ===== src/Export/OpenVex/Filled.antt =====
-- The texts of a draft that must not be blank, and the ids of its products.
use package.text.Mathlib.TextLemmas.{cons-append, cons≢nil}
use Prim.Native.Char.{Char, code}
use deep_thought.Prelude.{
  String, ◌&◌, ◌≡◌, refl, ap, ◌∙◌, inl, inr, true, false, ◌||◌, Option, none, some, List, [], ◌∷◌,
  ◌++◌, ◌==◌, eq_iff, eq_refl, map, member, arith, Bool-cases, All, if_ind,
}
use deep_thought.Prelude.Text.{strip_of, lstrip_of, rstrip_of, onto_stripped, is_space}
use deep_thought.Schema.Json.{text}
use deep_thought.Schema.Finding.{Finding, AffectedPackage}
use deep_thought.Store.Areas.{quote}
use deep_thought.Sessions.Map.Loop.{fromkeys}
use deep_thought.Export.OpenVex.{
  osv_id_for, quote_path, local_product, at_version, product_id, versions_of, all_ids, or_local,
  products,
}
use deep_thought.Export.OpenVex.Checks.{text_filled, repeats}

-- a text that is not blank
abbrev pub IsFilled : String → Type 0
IsFilled s = text_filled (some s) ≡ true

cons_apart : (c : Char) (s : String) → (String.◌∷◌ c s == "") ≡ false
cons_apart c s = elim (Bool-cases (String.◌∷◌ c s == "")) [
  | inl e ↦ absurd (cons≢nil ((eq_iff (String.◌∷◌ c s) "").0 e))
  | inr apart ↦ apart
]

stripped_apart : (c : Char) (s : String) → (onto_stripped false c s == "") ≡ false
stripped_apart c String.[] = cons_apart c ""
stripped_apart c (String.◌∷◌ d s) = cons_apart c (String.◌∷◌ d s)

-- A text that begins with a character that is no blank is not blank.
pub cons-IsFilled : (c : Char) (s : String) → is_space (code c) ≡ false → IsFilled (String.◌∷◌ c s)
unfolding strip_of lstrip_of rstrip_of
cons-IsFilled c s h = rw h (rw h (rw (stripped_apart c (rstrip_of (λ k. is_space k) s)) refl))

pub append-IsFilled :
    (c : Char) (s t : String) → is_space (code c) ≡ false → IsFilled (String.◌∷◌ c s & t)
append-IsFilled c s t h = rw (cons-append c s t) (cons-IsFilled c (s & t) h)

-- What was met before does not come again.
member-fromkeys_seen :
    (a : String) (seen xs : List String)
    → member a seen ≡ true
    → member a (fromkeys seen xs) ≡ false
unfolding fromkeys
member-fromkeys_seen a seen [] h = refl
member-fromkeys_seen a seen (x ∷ xs) h = elim (Bool-cases (member x seen)) [
  | inl met ↦ rw met (member-fromkeys_seen a seen xs h)
  | inr new ↦ rw new (elim (Bool-cases (x == a)) [
    | inl same ↦
        let e : member x seen ≡ true = ap (λ y. member y seen) ((eq_iff x a).0 same) ∙ h in
        absurd (ground (arith, e, new))
    | inr other ↦ rw other (member-fromkeys_seen a (x ∷ seen) xs (ground (arith, h)))
  ])
]

repeats-fromkeys : (seen xs : List String) → repeats (fromkeys seen xs) ≡ false
unfolding fromkeys repeats
repeats-fromkeys seen [] = refl
repeats-fromkeys seen (x ∷ xs) = elim (Bool-cases (member x seen)) [
  | inl met ↦ rw met (repeats-fromkeys seen xs)
  | inr new ↦ rw new (
      rw (member-fromkeys_seen x (x ∷ seen) xs (ground (arith, eq_refl x)))
        (repeats-fromkeys (x ∷ seen) xs))
]

at_version-IsFilled : (x : String) (v : Option String) → IsFilled (at_version ("pkg:" & x) v)
at_version-IsFilled x none = append-IsFilled "p" "kg:" x refl
at_version-IsFilled x (some v) =
    if_ind IsFilled (v == "") ("pkg:" & x) (("pkg:" & x) & ("@" & quote v))
      (λ _. append-IsFilled "p" "kg:" x refl)
      (λ _. rw (cons-append "p" "kg:" x) (append-IsFilled "p" ("kg:" & x) ("@" & quote v) refl))

-- Every id of a product is filled, and none comes twice.
module _ (lowercase : String → String) where
  local_product-IsFilled : (f : Finding) → IsFilled (local_product f)
  unfolding local_product
  local_product-IsFilled f =
      append-IsFilled "h" "ttps://deepthought.local/product/" (quote (osv_id_for f.id)) refl

  product_id-IsFilled :
      (local : String) (p : AffectedPackage) (v : Option String)
      → IsFilled local
      → IsFilled (product_id lowercase local p v)
  unfolding product_id
  product_id-IsFilled local p v h =
      let rest = quote (lowercase p.ecosystem) & ("/" & quote_path p.package_name) in
      if_ind IsFilled (p.ecosystem == "" || p.package_name == "") local
        (at_version ("pkg:" & rest) v) (λ _. h) (λ _. at_version-IsFilled rest v)

  All-append : (xs ys : List String) → All IsFilled xs → All IsFilled ys → All IsFilled (xs ++ ys)
  All-append [] ys h k = k
  All-append (x ∷ xs) ys h k = (h.0, All-append xs ys h.1 k)

  All-map_versions :
      (local : String) (p : AffectedPackage) (vs : List (Option String))
      → IsFilled local
      → All IsFilled (map (λ v. product_id lowercase local p v) vs)
  All-map_versions local p [] h = tt
  All-map_versions local p (v ∷ vs) h =
      (product_id-IsFilled local p v h, All-map_versions local p vs h)

  all_ids-IsFilled :
      (local : String) (ps : List AffectedPackage)
      → IsFilled local
      → All IsFilled (all_ids lowercase local ps)
  unfolding all_ids
  all_ids-IsFilled local [] h = tt
  all_ids-IsFilled local (p ∷ ps) h =
      All-append (map (λ v. product_id lowercase local p v) (versions_of lowercase p))
        (all_ids lowercase local ps) (All-map_versions local p (versions_of lowercase p) h)
        (all_ids-IsFilled local ps h)

  fromkeys-All : (P : String → Type 0) (seen xs : List String) → All P xs → All P (fromkeys seen xs)
  unfolding fromkeys
  fromkeys-All P seen [] h = tt
  fromkeys-All P seen (x ∷ xs) h =
      if_ind (λ ys. All P ys) (member x seen) (fromkeys seen xs) (x ∷ fromkeys (x ∷ seen) xs)
        (λ _. fromkeys-All P seen xs h.1) (λ _. (h.0, fromkeys-All P (x ∷ seen) xs h.1))

  -- what a list of ids must be for the validator
  unfoldable pub AreIds : List String → Type 0
  AreIds ids = (repeats ids ≡ false) × All IsFilled ids

  or_local-AreIds :
      (local : String) (ids : List String)
      → IsFilled local
      → AreIds ids
      → AreIds (or_local lowercase local ids)
  unfolding AreIds repeats
  or_local-AreIds local [] h k = (refl, (h, tt))
  or_local-AreIds local (id ∷ ids) h k = k

  pub products-AreIds : (f : Finding) → AreIds (products lowercase f)
  unfolding products AreIds
  products-AreIds f =
      let local = local_product f in
      let ids = all_ids lowercase local f.affected in
      or_local-AreIds local (fromkeys [] ids) (local_product-IsFilled f) (
        repeats-fromkeys [] ids,
        fromkeys-All IsFilled [] ids (all_ids-IsFilled local f.affected (local_product-IsFilled f)),
      )
