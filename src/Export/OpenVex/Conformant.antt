-- ===== src/Export/OpenVex/Conformant.antt =====
-- The drafts against the validator.
use Prim.Native.Char.{Char, code}
use deep_thought.Prelude.{
  ℕ, ◌+◌, String, ◌&◌, ◌≡◌, refl, ap, ◌∙◌, inl, inr, Bool, true, false, not, ◌&&◌, Option, none,
  some, List, [], ◌∷◌, ◌==◌, arith, Bool-cases, All, Option-cases, if_ind, is_some, eqb,
}
use deep_thought.Prelude.Text.{strip, is_space, after}
use deep_thought.Prelude.Text.{show}
use deep_thought.Prelude.Time.{iso_z}
use deep_thought.Schema.Json.{Json, Fields}
use deep_thought.Schema.Finding.{Finding}
use deep_thought.Store.Areas.{quote}
use deep_thought.Sessions.Map.Loop.{fromkeys}
use deep_thought.Ingest.Documents.{get}
use deep_thought.Ids.{take_chars}
use deep_thought.Ingest.Patterns.{is_digit, digit_run}
use deep_thought.Export.Dates.{is_date_time, is_rfc3339, digits_then, one_of}
use deep_thought.Export.OpenVex.{
  osv_id_for, matches_cve, name_for, vuln_name, local_product, product_items, all_ids, or_local,
  products, document, statement, finding_to_openvex,
}
use deep_thought.Export.OpenVex.Checks.{
  sorted, date_time_ok, nonempty_str, ids_of, product_errors, products_errors, fields_errors,
  each_statement, statements_errors, document_errors, validate_openvex,
}
use deep_thought.Export.OpenVex.Filled.{
  IsFilled, cons-IsFilled, append-IsFilled, AreIds, products-AreIds,
}

-- The products of the document are the ids, and give no error.
ids_of-product_items : (ids : List String) → All IsFilled ids → ids_of (product_items ids) ≡ ids
unfolding ids_of nonempty_str
ids_of-product_items [] h = refl
ids_of-product_items (id ∷ ids) h = rw h.0 (ap (λ xs. id ∷ xs) (ids_of-product_items ids h.1))

product_errors-none :
    (base : String) (j : ℕ) (ids : List String)
    → All IsFilled ids
    → product_errors base j (product_items ids) ≡ []
unfolding product_errors nonempty_str
product_errors-none base j [] h = refl
product_errors-none base j (id ∷ ids) h = rw h.0 (product_errors-none base (j + 1) ids h.1)

-- A text that begins with a filled prefix is filled.
after-IsFilled :
    (p : Char) (ps s : String)
    → is_space (code p) ≡ false
    → is_some (after (String.◌∷◌ p ps) s) ≡ true
    → IsFilled s
unfolding after
after-IsFilled p ps String.[] dark h = cc
after-IsFilled p ps (String.◌∷◌ c s) dark h = elim (Bool-cases (eqb (code p) (code c))) [
  | inl same ↦
      let codes : code c ≡ code p = ground arith in
      cons-IsFilled c s (ap (λ k. is_space k) codes ∙ dark)
  | inr differ ↦ let e : false ≡ true = rw differ at h in cc
]

osv_id_for-IsFilled : (id : String) → IsFilled (osv_id_for id)
unfolding osv_id_for
osv_id_for-IsFilled id =
    if_ind IsFilled (is_some (after "x_" id)) id ("x_" & id) (λ h. after-IsFilled "x" "_" id refl h)
      (λ _. append-IsFilled "x" "_" id refl)

matches_cve-IsFilled : (cve : String) → matches_cve cve ≡ true → IsFilled cve
unfolding matches_cve
matches_cve-IsFilled cve h = elim (Option-cases (after "CVE-" cve)) [
  | inl gone ↦ let e : false ≡ true = rw (matches_cve, gone) at h in absurd (cc)
  | inr (rest, found) ↦ after-IsFilled "C" "VE-" cve refl (rw found refl)
]

name_for-IsFilled : (id : String) (cve : Option String) → IsFilled (name_for id cve)
name_for-IsFilled id none = osv_id_for-IsFilled id
name_for-IsFilled id (some cve) =
    if_ind IsFilled (not (cve == "") && matches_cve cve) cve (osv_id_for id)
      (λ h. matches_cve-IsFilled cve (ground (arith, h))) (λ _. osv_id_for-IsFilled id)

vuln_name-IsFilled : (f : Finding) → IsFilled (vuln_name f)
unfolding vuln_name
vuln_name-IsFilled f = name_for-IsFilled f.id f.cve

filled_apart : (s : String) → IsFilled s → (strip s == "") ≡ false
filled_apart s h = ground (arith, h)

digit_dark : (k : ℕ) → is_digit k ≡ true → is_space k ≡ false
digit_dark k h = ground (arith, h)

-- A date and time is not blank: it begins with a digit.
is_date_time-IsFilled :
    (fromisoformat : String → Bool) (s : String) → is_date_time fromisoformat s ≡ true → IsFilled s
unfolding is_date_time is_rfc3339 digits_then digit_run one_of
is_date_time-IsFilled fromisoformat String.[] h = cc
is_date_time-IsFilled fromisoformat (String.◌∷◌ c s) h = elim (Bool-cases (is_digit (code c))) [
  | inl digit ↦ cons-IsFilled c s (digit_dark (code c) digit)
  | inr other ↦ let e : false ≡ true = rw other at h in absurd (cc)
]

module _ (lowercase : String → String) (fromisoformat : String → Bool)
    (json_repr : Option Json → String) (now later : ℕ) (f : Finding) where
  products_errors-cons :
      (base id : String) (ids : List String)
      → AreIds lowercase (id ∷ ids)
      → products_errors base (some (product_items (id ∷ ids))) ≡ []
  unfolding products_errors AreIds
  products_errors-cons base id ids (once, filled) =
      rw (product_errors-none base 0 (id ∷ ids) filled)
        (rw (ids_of-product_items (id ∷ ids) filled) (rw once refl))

  products_errors-or_local :
      (base local : String) (ids : List String)
      → AreIds lowercase (or_local lowercase local ids)
      → products_errors base (some (product_items (or_local lowercase local ids))) ≡ []
  products_errors-or_local base local [] k = products_errors-cons base local [] k
  products_errors-or_local base local (id ∷ ids) k = products_errors-cons base id ids k

  products_errors-none :
      (base : String) → products_errors base (some (product_items (products lowercase f))) ≡ []
  unfolding products
  products_errors-none base =
      products_errors-or_local base (local_product f)
        (fromkeys [] (all_ids lowercase (local_product f) f.affected)) (products-AreIds lowercase f)

  fields_errors-none :
      (base : String) → fields_errors fromisoformat json_repr base (statement lowercase f) ≡ []
  unfolding fields_errors statement get nonempty_str
  fields_errors-none base = rw (vuln_name-IsFilled f) (rw (products_errors-none base) refl)

  document_errors-none :
      (id stamp : String) (stmt : Fields)
      → IsFilled id
      → (strip stamp == "") ≡ false
      → is_date_time fromisoformat stamp ≡ true
      → fields_errors fromisoformat json_repr "statements/0" stmt ≡ []
      → document_errors fromisoformat json_repr (document id stamp stmt) ≡ []
  unfolding document_errors get nonempty_str date_time_ok statements_errors each_statement show
  document_errors-none id stamp stmt named dark clock none_in =
      rw named (rw dark (rw clock (rw none_in refl)))

  -- A draft that the exporter writes of any finding conforms: the validator has no error for it, if the
  -- clock prints as a date and time.
  pub finding_to_openvex-conforms :
      is_date_time fromisoformat (iso_z later) ≡ true
      → validate_openvex fromisoformat json_repr (finding_to_openvex lowercase now later f) ≡ []
  unfolding validate_openvex finding_to_openvex sorted
  finding_to_openvex-conforms clock =
      let stamp = is_date_time-IsFilled fromisoformat (iso_z later) clock in
      let named =
        append-IsFilled "h" "ttps://deepthought.local/vex/draft/"
          (take_chars 10 (iso_z now) & ("-" & quote f.id)) refl in
      let dark : (strip (iso_z later) == "") ≡ false = filled_apart (iso_z later) stamp in
      rw
        (document_errors-none
          ("https://deepthought.local/vex/draft/"
            & (take_chars 10 (iso_z now) & ("-" & quote f.id)))
          (iso_z later) (statement lowercase f) named dark clock
          (fields_errors-none "statements/0"))
        refl
