-- ===== src/Store/Records.antt =====
-- Lookups after a save, by record id.
use text.Mathlib.TextLemmas.{append_cancel_right}
use deep_thought.Prelude.{
  String, ◌≡◌, ap, none, some, arith, ◌==◌, eq_iff, if◌then◌else◌, Bool-cases, inl, inr,
}
use deep_thought.Prelude.Dirs.{Dir, write, lookup-write}
use deep_thought.Ids.{is_record_id}
use deep_thought.Schema.Finding.{Finding}
use deep_thought.Schema.Session.{Session}
use deep_thought.Store.{
  Store, file_name, get_record, read_back, get_finding, save_finding, get_session, save_session,
}

-- Distinct ids have distinct files.
file_name-eq : (a b : String) → (file_name a == file_name b) ≡ (a == b)
file_name-eq a b = elim (Bool-cases (file_name a == file_name b)) [
  | inl e ↦
      let same : a ≡ b = append_cancel_right a b ".md" ((eq_iff (file_name a) (file_name b)).0 e) in
      ground (arith, eq_iff a b)
  | inr e ↦
      ground (arith, eq_iff a b, eq_iff (file_name a) (file_name b), ap file_name {x = a} {y = b})
]

pub get_record-write :
    {V : Type 0} (d : Dir V) (id j : String) (v : V)
    → get_record (write (file_name id) v d) j
      ≡ (if id == j then (if is_record_id j then some v else none) else get_record d j)
get_record-write d id j v =
    ground (arith, lookup-write (file_name id) (file_name j) v d, file_name-eq id j)

pub get_finding-save_finding :
    (s : Store) (f : Finding) (j : String)
    → get_finding (save_finding s f) j ≡ (
        if f.id == j
        then (if is_record_id j then some (record f { body = read_back f.body }) else none)
        else get_finding s j)
unfolding get_finding save_finding
get_finding-save_finding s f j =
    get_record-write s.findings f.id j (record f { body = read_back f.body })

pub get_session-save_session :
    (s : Store) (r : Session) (j : String)
    → get_session (save_session s r) j ≡ (
        if r.id == j
        then (if is_record_id j then some (record r { body = read_back r.body }) else none)
        else get_session s j)
unfolding get_session save_session
get_session-save_session s r j =
    get_record-write s.sessions r.id j (record r { body = read_back r.body })
