-- ===== src/Examples/Verification.antt =====
-- VERIFY over a sandbox that runs nothing, and over the container backend.
use deep_thought.Prelude.{
  ◌∷◌, String, ◌≡◌, refl, sym, ◌∙◌, Bool, true, false, Option, none, some, [], arith,
}
use deep_thought.Prelude.Ints.{pos}
use deep_thought.Schema.Json.{Float, finite}
use deep_thought.Schema.Status.{candidate, verified}
use deep_thought.Schema.Finding.{Finding}
use deep_thought.Prelude.Dirs.{lookup, write}
use deep_thought.Ids.{is_record_id, take_chars}
use deep_thought.Store.Detail.{detail_path, write_detail}
use deep_thought.Store.{Store, get_finding, save_finding}
use deep_thought.Sandbox.{SandboxResult}
use deep_thought.Sandbox.Docker.Evidence.{Evidence}
use deep_thought.Sandbox.Seam.{Sandbox, noop_sandbox, docker_sandbox}
use deep_thought.Sessions.Verify.{VerifySession}
use deep_thought.Sessions.Verify.Run.{foreign, verify_run}
use deep_thought.Sessions.Verify.Kept.{status_of, IsNamed, verify_run_kept}
use deep_thought.Sessions.Verify.Promotion.{Verified, verify_run-Verified}
use deep_thought.Examples.Samples.{store, finding_at}
use deep_thought.Examples.Containers.{spec, signed}

abbrev show_second : Float → String
show_second x = "1.0"

abbrev result : Bool → SandboxResult
result reproduced = record {
  exit_code = pos 99;
  timed_out = false;
  wall_seconds = finite false 1 1;
  stdout_ref = none;
  stderr_ref = none;
  reproduced = reproduced;
  crash = none;
}

abbrev session : Sandbox → VerifySession
session sandbox = record {
  project_id = "php-src";
  finding_id = "F-0001";
  spec = spec;
  sandbox = sandbox;
  dry_run = false;
}

abbrev canned : Bool → VerifySession
canned reproduced = session (noop_sandbox (record { result = result reproduced; recorded = [] }))

found : get_finding store "F-0001" ≡ some (finding_at candidate)
unfolding get_finding is_record_id lookup
found = refl

same_id : (f g : Finding) → ◌≡◌ {A = Option Finding} (some f) (some g) → f.id ≡ g.id
same_id f g h = ground (arith, h)

named : IsNamed store "F-0001"
named f h = sym (same_id (finding_at candidate) f (sym found ∙ h))

verify_run_kept_example :
    status_of (verify_run show_second 0 (canned false) store "S-2").0 "F-0001"
    ≡ status_of store "F-0001"
unfolding noop_sandbox
verify_run_kept_example =
    verify_run_kept show_second 0 (canned false) store "S-2" named refl refl "F-0001"

verify_run-Verified_example :
    Verified show_second
      (canned true)
      "S-2"
      (finding_at candidate)
      (result true)
      (verify_run show_second 0 (canned true) store "S-2")
unfolding noop_sandbox is_record_id foreign
verify_run-Verified_example =
    verify_run-Verified show_second 0 (canned true) store store "S-2" (finding_at candidate)
      (result true) found refl refl refl refl refl refl refl refl

abbrev real : VerifySession
real = session (docker_sandbox signed [])

-- A finding whose file bears another id is saved under its own id: a run without a reproduction puts
-- the candidate of `F-0001.md` in the place of a verified finding.
abbrev misfiled : Store
misfiled = record store {
  findings =
      ("F-0001.md", record (finding_at candidate) { id = "F-0002" })
      ∷ ("F-0002.md", record (finding_at verified) { id = "F-0002" })
      ∷ [];
}

was_verified : status_of misfiled "F-0002" ≡ some verified
unfolding get_finding is_record_id lookup
was_verified = refl

overwritten :
    status_of (verify_run show_second 0 (canned false) misfiled "S-2").0 "F-0002" ≡ some candidate
unfolding verify_run noop_sandbox foreign detail_path take_chars is_record_id get_finding lookup
    save_finding write_detail write
overwritten = refl
