-- ===== src/Sessions/Verify/Evidence.antt =====
-- The evidence that VERIFY pages (`_evidence_body` of src/deepthought/sessions/verify.py).
-- `show_float` is Python's `str` of a float.
use deep_thought.Prelude.{
  ℕ, String, ◌&◌, Bool, true, false, Option, none, some, List, [], ◌∷◌, ◌++◌, map, truthy,
  if◌then◌else◌,
}
use deep_thought.Prelude.Text.{show, join, or_none}
use deep_thought.Prelude.Ints.{show_int}
use deep_thought.Schema.Json.{Float}
use deep_thought.Schema.Finding.{Finding}
use deep_thought.Sandbox.{SandboxSpec, SandboxResult, CrashReport}

abbrev pub evidence_name : String
evidence_name = "verify-result.txt"

-- a Boolean in a format
abbrev pub truth : Bool → String
truth true = "True"
truth false = "False"

abbrev size_text : Option ℕ → String
size_text none = "None"
size_text (some n) = show n

-- `ref or '(none)'`
abbrev ref_text : Option String → String
ref_text ref = if truthy ref then or_none ref else "(none)"

crash_lines : Option CrashReport → List String
unfolding show
crash_lines none = []
crash_lines (some c) =
    ("## Sanitizer crash (distilled — bounded, structured)"
      ∷ ("- sanitizer: " & c.sanitizer)
      ∷ ("- error_type: " & c.error_type)
      ∷ ("- access: " & (c.access & (" (size " & (size_text c.access_size & ")"))))
      ∷ ("- faulting_function: " & c.faulting_function)
      ∷ ("- faulting_location: " & c.faulting_location)
      ∷ ("- dedup_key: " & c.dedup_key)
      ∷ ("- raw_report_ref: " & ref_text c.raw_ref)
      ∷ "- top_frames:"
      ∷ map (λ frame. "    " & frame) c.top_frames)
    ++ "" ∷ []

-- `_evidence_body`
unfoldable pub evidence_body : (Float → String) → Finding → SandboxSpec → SandboxResult → String
unfolding crash_lines show show_int join
evidence_body show_float f spec r =
    let p = spec.policy in
    join "\n" (
      (("# VERIFY evidence for " & f.id)
        ∷ ""
        ∷ ("Project: " & f.project)
        ∷ ("Summary: " & f.summary)
        ∷ ""
        ∷ "## Sandbox result (typed — the only thing the orchestrator reads)"
        ∷ ("- reproduced: " & truth r.reproduced)
        ∷ ("- exit_code: " & show_int r.exit_code)
        ∷ ("- timed_out: " & truth r.timed_out)
        ∷ ("- wall_seconds: " & show_float r.wall_seconds)
        ∷ ("- stdout_ref: " & ref_text r.stdout_ref)
        ∷ ("- stderr_ref: " & ref_text r.stderr_ref)
        ∷ ""
        ∷ [])
      ++ (crash_lines r.crash
          ++ "## Enforced isolation (the policy the run ran under)"
            ∷ ("- image: " & spec.image)
            ∷ ("- network: " & p.network)
            ∷ ("- read_only_rootfs: " & truth p.read_only_rootfs)
            ∷ ("- drop_all_caps: " & truth p.drop_all_caps)
            ∷ ("- no_new_privileges: " & truth p.no_new_privileges)
            ∷ ("- run_as_non_root: " & (truth p.run_as_non_root & (" (user " & (p.user & ")"))))
            ∷ ("- pids_limit: " & show p.pids_limit)
            ∷ ("- memory_mib: " & show p.memory_mib)
            ∷ ("- cpus: " & show_float p.cpus)
            ∷ ("- wall_timeout_seconds: " & show p.wall_timeout_seconds)
            ∷ ("- ephemeral: " & truth p.ephemeral)
            ∷ ""
            ∷ "Raw target stdout/stderr is paged separately under the refs above and is never inlined into orchestrator context (Constitution Article VIII)."
            ∷ ""
            ∷ []))
