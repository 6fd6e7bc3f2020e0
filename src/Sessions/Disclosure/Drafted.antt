-- ===== src/Sessions/Disclosure/Drafted.antt =====
-- The ends of a run of DISCLOSURE.
use deep_thought.Prelude.{String, ◌≡◌, Bool, true, not, ◌&&◌, some, List, [], ◌∷◌, map, member, All}
use deep_thought.Prelude.Text.{newlines}
use deep_thought.Ids.{is_record_id}
use deep_thought.Result.{Error, Result, ok, raise}
use deep_thought.Schema.Json.{Json}
use deep_thought.Schema.Status.{verified}
use deep_thought.Schema.Finding.{Finding}
use deep_thought.Store.{Store, get_finding}
use deep_thought.Store.Detail.{read_detail, detail_ref}
use deep_thought.Protocol.{SessionOutcome}
use deep_thought.Sessions.Disclosure.{Exporters, DisclosureSession, Draft, drafts, Work}

abbrev names_of : List Draft → List String
names_of ds = map (λ d. d.0) ds

-- names that are record ids, each once
abbrev are_names : List String → Bool
are_names [] = true
are_names (n ∷ ns) = is_record_id n && (not (member n ns) && are_names ns)

-- every draft is found again on its page
abbrev pub OnPages : String → List Draft → Store → Type 0
OnPages sid ds t = All (λ d. read_detail t (detail_ref sid d.0) ≡ some (newlines d.1)) ds

-- the finding that a run is due to draft: on file, of the project, and verified
abbrev pub IsDue : DisclosureSession → Store → Finding → Type 0
IsDue v s f =
    (get_finding s v.finding_id ≡ some f) × (f.project ≡ v.project_id) × (f.status ≡ verified)

-- What a run of DISCLOSURE comes to: where no finding is due it refuses, and otherwise an exporter
-- raises or it drafts; only the last changes the store.
pub data Ends (x : Exporters) (v : DisclosureSession) (sid : String) (s : Store)
    : Work → Type 0 where
  raised :
      (f : Finding) (e : Error) → IsDue v s f → drafts x f ≡ raise e → Ends x v sid s (s, raise e)
  refused :
      (o : SessionOutcome)
      → ((f : Finding) → IsDue v s f → ⊥)
      → o.findings_touched ≡ []
      → Ends x v sid s (s, ok o)
  wrote :
      (f : Finding) (ds : List Draft) (t : Store) (o : SessionOutcome)
      → IsDue v s f
      → drafts x f ≡ ok ds
      → OnPages sid ds t
      → t ≡ record s { detail = t.detail }
      → o.findings_touched ≡ f.id ∷ []
      → Ends x v sid s (t, ok o)
