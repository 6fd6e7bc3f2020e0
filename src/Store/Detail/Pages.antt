-- ===== src/Store/Detail/Pages.antt =====
-- Two pages of one session.
use text.Mathlib.TextLemmas.{append_cancel_left}
use deep_thought.Prelude.{
  String, ◌&◌, ◌≡◌, ap, ◌∙◌, inl, inr, true, false, some, [], ◌∷◌, ◌==◌, eq_iff, arith, Bool-cases,
  if_false,
}
use deep_thought.Prelude.Text.{join}
use deep_thought.Prelude.Dirs.{write, lookup-write}
use deep_thought.Ids.{is_record_id}
use deep_thought.Store.{Store}
use deep_thought.Store.Detail.{plain, read_path, read_detail, write_detail, detail_ref}
use deep_thought.Store.Detail.Paths.{detail_path-detail_ref, path_parts-detail_ref}

abbrev page : String → String → String
page sid name = join "/" ("detail" ∷ sid ∷ name ∷ [])

pages_differ :
    (sid name other : String) → (name == other) ≡ false → (page sid name == page sid other) ≡ false
unfolding join
pages_differ sid name other differ = elim (Bool-cases (page sid name == page sid other)) [
  | inr apart ↦ apart
  | inl same ↦
      let e : page sid name ≡ page sid other = (eq_iff (page sid name) (page sid other)).0 same in
      let names : name ≡ other = append_cancel_left "/" name other (
        append_cancel_left sid ("/" & name) ("/" & other) (
          append_cancel_left "/" (sid & ("/" & name)) (sid & ("/" & other)) (
            append_cancel_left "detail" ("/" & (sid & ("/" & name))) ("/" & (sid & ("/" & other)))
              e))) in
      absurd (ground (arith, eq_iff name other, names, differ))
]

read_path-write_other :
    (path other content : String) (s : Store)
    → (path == other) ≡ false
    → read_path (record s { detail = write path content s.detail }) (some other)
      ≡ read_path s (some other)
unfolding read_path
read_path-write_other path other content s differ =
    ap (λ o. plain o) (lookup-write path other content s.detail ∙ if_false _ _ differ)

-- A page that a session writes leaves its other pages as they are.
pub read_detail-write_detail_other :
    (sid name other content : String) (s : Store)
    → is_record_id sid ≡ true
    → is_record_id name ≡ true
    → is_record_id other ≡ true
    → (name == other) ≡ false
    → read_detail (write_detail s sid name content) (detail_ref sid other)
      ≡ read_detail s (detail_ref sid other)
unfolding read_detail write_detail
read_detail-write_detail_other sid name other content s h k l differ =
    rw (detail_path-detail_ref sid other h l) (
      rw (path_parts-detail_ref sid name h k) (
        read_path-write_other (page sid name) (page sid other) content s
          (pages_differ sid name other differ)))
