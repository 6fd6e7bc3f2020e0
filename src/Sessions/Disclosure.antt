-- ===== src/Sessions/Disclosure.antt =====
-- DISCLOSURE (src/deepthought/sessions/disclosure.py): drafts four artifacts from a verified finding
-- and writes them as detail, nothing else. The exporters of src/deepthought/export come by the
-- interface `Exporters`.
pub mod Drafted
use deep_thought.Prelude.{
  String, ◌&◌, not, Option, none, some, List, [], ◌∷◌, ◌==◌, map, if◌then◌else◌,
}
use deep_thought.Prelude.Text.{concat, join, repr}
use deep_thought.Result.{Result, ok, raise, ◌>>=◌}
use deep_thought.Schema.Json.{Json}
use deep_thought.Schema.Status.{SessionType, verified, is_status, status_value}
use deep_thought.Schema.Finding.{Finding}
use deep_thought.Store.{Store, get_finding}
use deep_thought.Store.Detail.{write_detail, detail_ref}
use deep_thought.Protocol.{BaseSession, SessionOutcome}
use deep_thought.Sessions.{project_context, teach}

-- the four exporters at one point of time, and `json.dumps` as the session calls it
pub record Exporters : Type 0 where
  pub finding_to_advisory : Finding → Result String
  pub finding_to_csaf : Finding → Result Json
  pub finding_to_openvex : Finding → Result Json
  pub finding_to_cve_draft : Finding → Result Json
  pub json_text : Json → String

pub record DisclosureSession : Type 0 where
  pub project_id : String
  pub finding_id : String

-- an artifact: the name of its page, and what is on it
abbrev pub Draft : Type 0
Draft = String × String

-- the artifacts, from what the exporters come to
abbrev pub gather :
    (Json → String) → Result String → Result Json → Result Json → Result Json → Result (List Draft)
gather show_json advisory csaf openvex cve_draft = do
  a ← advisory
  c ← csaf
  v ← openvex
  d ← cve_draft
  ok (
      ("disclosure-advisory.md", a)
      ∷ ("disclosure-csaf.json", show_json c)
      ∷ ("disclosure-openvex.json", show_json v)
      ∷ ("disclosure-cve-draft.json", show_json d)
      ∷ [])

-- the drafts of a finding, all of them before any is written
unfoldable pub drafts : Exporters → Finding → Result (List Draft)
drafts x f =
    gather x.json_text (x.finding_to_advisory f) (x.finding_to_csaf f) (x.finding_to_openvex f)
      (x.finding_to_cve_draft f)

unfoldable pub write_drafts : String → List Draft → Store → Store
unfolding write_detail
write_drafts sid [] s = s
write_drafts sid ((name, content) ∷ ds) s = write_drafts sid ds (write_detail s sid name content)

abbrev refuse : String → String → SessionOutcome
refuse summary next_steps = teach summary next_steps [] []

-- the summaries begin with the session's project
abbrev on_project : String → List String → String
on_project project parts = concat ("DISCLOSURE on " ∷ repr project ∷ ": " ∷ parts)

unfoldable pub not_found : DisclosureSession → SessionOutcome
not_found v =
    refuse
      (on_project v.project_id
        ("finding " ∷ repr v.finding_id ∷ " was not found — refusing. Nothing was drafted." ∷ []))
      (concat (
        "Check the finding id and re-run DISCLOSURE with a verified finding that exists in "
        ∷ repr v.project_id
        ∷ "."
        ∷ []))

unfoldable pub wrong_project : DisclosureSession → Finding → SessionOutcome
wrong_project v f =
    refuse
      (on_project v.project_id (
        "finding "
        ∷ repr f.id
        ∷ " belongs to project "
        ∷ repr f.project
        ∷ ", not "
        ∷ repr v.project_id
        ∷ " — refusing. Nothing was drafted."
        ∷ []))
      (concat (
        "Run DISCLOSURE under the finding's own project ("
        ∷ repr f.project
        ∷ "), or pass a finding that belongs to "
        ∷ repr v.project_id
        ∷ "."
        ∷ []))

unfoldable pub not_verified : DisclosureSession → Finding → SessionOutcome
not_verified v f =
    refuse
      (on_project v.project_id (
        "finding "
        ∷ repr f.id
        ∷ " is "
        ∷ repr (status_value f.status)
        ∷ ", not verified — refusing. Nothing was drafted; status unchanged."
        ∷ []))
      (concat (
        "Verify "
        ∷ repr f.id
        ∷ " first (VERIFY promotes a candidate to verified on resolving evidence), then re-run "
        ∷ "DISCLOSURE to draft its advisory and VEX."
        ∷ []))

unfoldable pub drafted : DisclosureSession → String → Finding → List Draft → SessionOutcome
unfolding join
drafted v sid f ds =
    teach
      (on_project v.project_id (
        "drafted four artifacts for "
        ∷ repr f.id
        ∷ " ("
        ∷ join ", " (map (λ d. detail_ref sid d.0) ds)
        ∷ "). Nothing was transmitted; no CVE was assigned; no advisory reference was added; the "
        ∷ "finding is unchanged (still verified)."
        ∷ []))
      (concat (
        "HUMAN GATE (Constitution Article V): review the drafts, obtain and assign a real CVE, "
        ∷ "publish the advisory and add a Reference(type='advisory', url=...) to "
        ∷ repr f.id
        ∷ ", then run the verified -> disclosed transition through the Store lifecycle guard. "
        ∷ "Sending is a human action; Deep Thought drafts only."
        ∷ []))
      (f.id ∷ []) []

abbrev pub Work : Type 0
Work = Store × Result SessionOutcome

module _ (x : Exporters) (v : DisclosureSession) (sid : String) where
  unfoldable pub write_up : Store → Finding → Result (List Draft) → Work
  unfolding write_drafts drafted
  write_up s f (raise e) = (s, raise e)
  write_up s f (ok ds) = (write_drafts sid ds s, ok (drafted v sid f ds))

  unfoldable pub disclose : Store → Finding → Work
  unfolding wrong_project not_verified write_up drafts
  disclose s f =
      if not (f.project == v.project_id)
      then (s, ok (wrong_project v f))
      else if not (is_status verified f.status)
      then (s, ok (not_verified v f))
      else write_up s f (drafts x f)

  unfoldable pub disclose_found : Store → Option Finding → Work
  unfolding disclose not_found
  disclose_found s none = (s, ok (not_found v))
  disclose_found s (some f) = disclose s f

  -- `DisclosureSession.run`
  unfoldable pub disclosure_run : Store → Work
  unfolding disclose_found get_finding
  disclosure_run s = disclose_found s (get_finding s v.finding_id)

unfoldable pub disclosure_session : Exporters → DisclosureSession → BaseSession
unfolding project_context disclosure_run
disclosure_session x v = record {
  type = SessionType.disclosure;
  project_id = some v.project_id;
  build_gate_context = project_context SessionType.disclosure v.project_id;
  run = λ gate s sid. disclosure_run x v sid s;
}
