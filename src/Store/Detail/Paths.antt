-- ===== src/Store/Detail/Paths.antt =====
-- Detail that is written and read back.
use text.Mathlib.TextLemmas.{cons-append, nil-append, append_assoc, cons≢nil}
use deep_thought.Prelude.{
  ap, ◌∙◌, String, ◌&◌, ◌≡◌, refl, true, false, none, some, [], ◌∷◌, ◌==◌, eq_iff, eq_refl, arith,
  truthy, Bool-cases, inl, inr, Option,
}
use deep_thought.Prelude.Text.{
  after, has_char, split_slash, path_parts, is_part, root_part, newlines, join,
}
use deep_thought.Prelude.Dirs.{write, lookup-write}
use deep_thought.Ids.{is_record_id, ends_well}
use deep_thought.Store.{Store}
use deep_thought.Store.Detail.{
  relative, read_path, plain, detail_path, read_detail, write_detail, detail_ref,
}

slash-append : (t : String) → "/" & t ≡ String.◌∷◌ "/" t
slash-append t = cons-append "/" "" t ∙ ap (String.◌∷◌ "/") (nil-append t)

split_slash-append :
    (s t : String) → has_char b'/' s ≡ false → split_slash (s & ("/" & t)) ≡ s ∷ split_slash t
unfolding split_slash has_char
split_slash-append String.[] t h = rw (nil-append ("/" & t)) (rw (slash-append t))
split_slash-append (String.◌∷◌ c s) t h =
    rw (cons-append c s ("/" & t)) (ground (arith, split_slash-append s t))

split_slash_alone : (s : String) → has_char b'/' s ≡ false → split_slash s ≡ s ∷ []
unfolding split_slash has_char
split_slash_alone String.[] h = refl
split_slash_alone (String.◌∷◌ c s) h = ground (arith, split_slash_alone s)

ends_well-no_slash : (s : String) → ends_well s ≡ true → has_char b'/' s ≡ false
unfolding ends_well has_char
ends_well-no_slash String.[] h = refl
ends_well-no_slash (String.◌∷◌ c String.[]) h = ground arith
ends_well-no_slash (String.◌∷◌ c (String.◌∷◌ d s)) h =
    ground (arith, ends_well-no_slash (String.◌∷◌ d s))

record_id-no_slash : (s : String) → is_record_id s ≡ true → has_char b'/' s ≡ false
unfolding is_record_id has_char
record_id-no_slash String.[] h = cc
record_id-no_slash (String.◌∷◌ c s) h = ground (arith, ends_well-no_slash s)

record_id-is_part : (s : String) → is_record_id s ≡ true → is_part s ≡ true
unfolding is_record_id
record_id-is_part s h = ground (
  arith,
  eq_iff s "",
  eq_iff s ".",
  ap is_record_id {x = s} {y = ""},
  ap is_record_id {x = s} {y = "."},
)

record_id-ne_dots : (s : String) → is_record_id s ≡ true → (s == "..") ≡ false
unfolding is_record_id
record_id-ne_dots s h = ground (arith, eq_iff s "..", ap is_record_id {x = s} {y = ".."})

relative_of_other : (s : String) → relative (String.◌∷◌ "d" s) ≡ String.◌∷◌ "d" s
unfolding relative after
relative_of_other s = refl

read_path-write :
    (s : Store) (path content : String)
    → read_path (record s { detail = write path content s.detail }) (some path)
      ≡ some (newlines content)
unfolding read_path plain
read_path-write s path content = rw (lookup-write, eq_refl, plain)

filled : (t : String) → truthy (some (String.◌∷◌ "d" t)) ≡ true
filled t = elim (Bool-cases (String.◌∷◌ "d" t == "")) [
  | inl e ↦ absurd (cons≢nil ((eq_iff _ _).0 e))
  | inr n ↦ rw n
]

module _ (session_id name : String) (h : is_record_id session_id ≡ true)
    (k : is_record_id name ≡ true) where
  detail_ref-cons :
      detail_ref session_id name ≡ String.◌∷◌ "d" ("etail/" & (session_id & ("/" & name)))
  detail_ref-cons = cons-append "d" "etail/" _

  split_slash-detail_ref :
      split_slash (detail_ref session_id name) ≡ "detail" ∷ session_id ∷ name ∷ []
  split_slash-detail_ref =
      ap split_slash (append_assoc "detail" "/" (session_id & ("/" & name)))
      ∙ split_slash-append "detail" (session_id & ("/" & name)) (unfold has_char in refl)
      ∙ ap (λ l. "detail" ∷ l)
          (split_slash-append session_id name (record_id-no_slash session_id h)
            ∙ ap (λ l. session_id ∷ l) (split_slash_alone name (record_id-no_slash name k)))

  root_part-detail_ref : root_part (detail_ref session_id name) ≡ []
  unfolding root_part after
  root_part-detail_ref = rw detail_ref-cons

  pub path_parts-detail_ref :
      path_parts (detail_ref session_id name) ≡ "detail" ∷ session_id ∷ name ∷ []
  unfolding path_parts
  path_parts-detail_ref =
      rw (root_part-detail_ref, split_slash-detail_ref)
        (rw (record_id-is_part session_id h, record_id-is_part name k))

  relative-detail_ref : relative (detail_ref session_id name) ≡ detail_ref session_id name
  relative-detail_ref = rw detail_ref-cons (relative_of_other _)

  -- Detail that a session writes under a safe name is found again, with plain line ends.
  pub read_detail-write_detail :
      (s : Store) (content : String)
      → read_detail (write_detail s session_id name content) (detail_ref session_id name)
        ≡ some (newlines content)
  unfolding read_detail write_detail detail_path
  read_detail-write_detail s content =
      rw (relative-detail_ref, path_parts-detail_ref)
        (rw (record_id-ne_dots session_id h, record_id-ne_dots name k)
          (read_path-write s _ content))

  pub detail_path-detail_ref :
      detail_path (detail_ref session_id name) ≡ some (join "/" ("detail" ∷ session_id ∷ name ∷ []))
  unfolding detail_path
  detail_path-detail_ref =
      rw (relative-detail_ref, path_parts-detail_ref)
        (rw (record_id-ne_dots session_id h, record_id-ne_dots name k) refl)

  -- no reference of a session is empty
  pub detail_ref-truthy : truthy (some (detail_ref session_id name)) ≡ true
  detail_ref-truthy = rw detail_ref-cons (filled _)

read_path-same :
    (t s : Store) → t.detail ≡ s.detail → (o : Option String) → read_path t o ≡ read_path s o
unfolding read_path
read_path-same t s h none = refl
read_path-same t s h (some path) = rw h

pub read_detail-same :
    (t s : Store) → t.detail ≡ s.detail → (ref : String) → read_detail t ref ≡ read_detail s ref
unfolding read_detail
read_detail-same t s h ref = read_path-same t s h (detail_path ref)
