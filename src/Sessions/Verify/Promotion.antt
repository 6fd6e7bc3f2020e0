-- ===== src/Sessions/Verify/Promotion.antt =====
-- VERIFY where the repro reproduced.
use mathlib.Core.Path.{subst}
use deep_thought.Prelude.{
  ℕ, String, ◌≡◌, refl, sym, ap, ◌∙◌, true, false, not, none, some, ◌==◌, eq_refl, truthy, if_true,
  if_false,
}
use deep_thought.Prelude.Text.{newlines}
use deep_thought.Schema.Json.{Float}
use deep_thought.Schema.Status.{candidate, verified, is_status}
use deep_thought.Schema.Finding.{Finding}
use deep_thought.Ids.{is_record_id}
use deep_thought.Result.{ok}
use deep_thought.Store.{Store, get_finding, save_finding, read_back}
use deep_thought.Store.Detail.{write_detail, detail_ref, read_detail, detail_exists}
use deep_thought.Store.Detail.Paths.{read_detail-write_detail, read_detail-same, detail_ref-truthy}
use deep_thought.Store.Lifecycle.{TransitionResult, evaluate_transition, entry_guard}
use deep_thought.Store.Lifecycle.Effects.{
  Effect, transition_finding-Effect, saved_again, save_finding-detail,
}
use deep_thought.Sandbox.{SandboxResult}
use deep_thought.Sessions.Verify.{VerifySession}
use deep_thought.Sessions.Verify.Evidence.{evidence_name, evidence_body}
use deep_thought.Sessions.Verify.Outcomes.{promoted}
use deep_thought.Sessions.Verify.Run.{
  Work, answered, promote, concluded, came_back, foreign, sandboxed, verify_finding, verify_run,
}

detail_exists-read :
    (s : Store) (ref text : String) → read_detail s ref ≡ some text → detail_exists s ref ≡ true
unfolding detail_exists
detail_exists-read s ref text h = rw h

-- the guard grants the promotion of a candidate whose evidence resolves
evaluate_transition-verified :
    (s : Store) (f : Finding) (ref : String)
    → f.status ≡ candidate
    → f.evidence_ref ≡ some ref
    → truthy (some ref) ≡ true
    → detail_exists s ref ≡ true
    → (evaluate_transition s f verified).allowed ≡ true
unfolding evaluate_transition entry_guard
evaluate_transition-verified s f ref here evidence filled resolves =
    rw (here, evidence, filled, resolves) refl

-- Finding `id` of the store is verified on evidence that reads as `text`.
pub record Promoted (id ref text : String) (s : Store) : Type 0 where
  pub finding : Finding
  pub found : get_finding s id ≡ some finding
  pub status : finding.status ≡ verified
  pub evidence : finding.evidence_ref ≡ some ref
  pub paged : read_detail s ref ≡ some (newlines text)

module _ (show_float : Float → String) (now : ℕ) (v : VerifySession) (f : Finding)
    (r : SandboxResult) where
  answered-eq-accepted :
      (ref : String) (s t : Store) (u : TransitionResult)
      → u.accepted ≡ true
      → answered show_float v f ref r s (ok (t, u)) ≡ (t, ok (promoted show_float v f ref r))
  unfolding answered
  answered-eq-accepted ref s t u h = rw h

  accepted-Promoted :
      (s : Store) (ref text : String) (g : Finding) (E : Effect now s g verified)
      → E.result.accepted ≡ true
      → g.evidence_ref ≡ some ref
      → read_detail s ref ≡ some (newlines text)
      → Promoted g.id ref text E.store
  accepted-Promoted s ref text g E taken evidence paged = record {
    finding = E.finding;
    found = E.saved;
    status = E.attempted.status ∙ E.attempted.outcome ∙ rw taken;
    evidence = (ap (λ (x : Finding). x.evidence_ref) E.attempted.rest) ∙ evidence;
    paged = read_detail-same E.store s (ap (λ (t : Store). t.detail) E.rest) ref ∙ paged;
  }

  promote-Promoted :
      (s : Store) (ref text : String)
      → is_record_id f.id ≡ true
      → f.status ≡ candidate
      → truthy (some ref) ≡ true
      → read_detail s ref ≡ some (newlines text)
      → Promoted f.id ref text (promote show_float now v s f ref r).0
        × (promote show_float now v s f ref r).1 ≡ ok (promoted show_float v f ref r)
  unfolding promote
  promote-Promoted s ref text safe here filled paged =
      let s' = save_finding s (record f { evidence_ref = some ref }) in
      let g : Finding = record f { evidence_ref = some ref; body = read_back f.body } in
      let found : get_finding s' f.id ≡ some g =
        saved_again s (record f { evidence_ref = some ref }) safe in
      let there : read_detail s' ref ≡ some (newlines text) =
        read_detail-same s' s (save_finding-detail s (record f { evidence_ref = some ref })) ref
        ∙ paged in
      let allowed =
        evaluate_transition-verified s' g ref here refl filled
          (detail_exists-read s' ref _ there) in
      let E = transition_finding-Effect now s' g verified found in
      let taken : E.result.accepted ≡ true = E.decided ∙ allowed in
      let step =
        ap (answered show_float v f ref r s') E.done
        ∙ answered-eq-accepted ref s' E.store E.result taken in
      (
        subst (Promoted f.id ref text) (sym (ap (λ (w : Work). w.0) step))
            (accepted-Promoted s' ref text g E taken refl there),
        ap (λ (w : Work). w.1) step,
      )

-- what VERIFY came to: finding `f` promoted on the evidence of `r`
pub record Verified (show_float : Float → String) (v : VerifySession) (sid : String) (f : Finding)
    (r : SandboxResult) (w : Work) : Type 0 where
  pub promoted_on :
      Promoted f.id (detail_ref sid evidence_name) (evidence_body show_float f v.spec r) w.0
  pub taught : w.1 ≡ ok (promoted show_float v f (detail_ref sid evidence_name) r)

evidence_name-is_record_id : is_record_id evidence_name ≡ true
unfolding is_record_id
evidence_name-is_record_id = refl

concluded-Verified :
    (show_float : Float → String) (now : ℕ) (v : VerifySession) (sid : String) (f : Finding)
    (s : Store) (r : SandboxResult)
    → is_record_id sid ≡ true
    → is_record_id f.id ≡ true
    → f.status ≡ candidate
    → v.dry_run ≡ false
    → r.reproduced ≡ true
    → Verified show_float v sid f r (concluded show_float now v sid f s r)
unfolding concluded
concluded-Verified show_float now v sid f s r own safe here real reproduced =
    let text = evidence_body show_float f v.spec r in
    let s' = write_detail s sid evidence_name text in
    let ref = detail_ref sid evidence_name in
    let filled = detail_ref-truthy sid evidence_name own evidence_name-is_record_id in
    let paged = read_detail-write_detail sid evidence_name own evidence_name-is_record_id s text in
    let (done, taught) = promote-Promoted show_float now v f r s' ref text safe here filled paged in
    let step : concluded show_float now v sid f s r ≡ promote show_float now v s' f ref r =
      if_false _ _ real ∙ if_true _ _ reproduced in
    subst (Verified show_float v sid f r) (sym step)
      (record { promoted_on = done; taught = taught })

-- A candidate of the session's own project, which no other sandbox stands before, is verified by a
-- real VERIFY whose sandbox reports a reproduction: the finding's reference then reads as the evidence
-- of that result, with plain line ends, and the session teaches the promotion.
pub verify_run-Verified :
    (show_float : Float → String) (now : ℕ) (v : VerifySession) (s t : Store) (sid : String)
    (f : Finding) (r : SandboxResult)
    → get_finding s v.finding_id ≡ some f
    → is_record_id sid ≡ true
    → is_record_id f.id ≡ true
    → f.project ≡ v.project_id
    → f.status ≡ candidate
    → foreign v.project_id v.sandbox.project ≡ none
    → v.dry_run ≡ false
    → v.sandbox.within s v.spec ≡ (t, ok (some r))
    → r.reproduced ≡ true
    → Verified show_float v sid f r (verify_run show_float now v s sid)
unfolding verify_run verify_finding sandboxed came_back
verify_run-Verified show_float now v s t sid f r found own safe project here free real came
      reproduced =
    let mine : not (f.project == v.project_id) ≡ false = rw (project, eq_refl v.project_id) in
    let waiting : not (is_status f.status candidate) ≡ false = rw here in
    let step : verify_run show_float now v s sid ≡ concluded show_float now v sid f t r =
      ap (verify_finding show_float now v s sid) found
      ∙ if_false _ _ mine
      ∙ if_false _ _ waiting
      ∙ ap (sandboxed show_float now v s sid f) free
      ∙ ap (came_back show_float now v sid f) came in
    subst (Verified show_float v sid f r) (sym step)
      (concluded-Verified show_float now v sid f t r own safe here real reproduced)
