-- ===== src/Sandbox/Docker/Findings.antt =====
-- `run` and `teardown`, and the findings of the store.
use deep_thought.Prelude.{
  String, ◌&◌, refl, Bool, true, false, not, Option, none, some, List, ◌∷◌, ◌++◌, is_some, if_ind,
}
use deep_thought.Prelude.Ints.{ℤ, show_int}
use deep_thought.Schema.Json.{Float}
use deep_thought.Result.{sandbox_error, isolation_unavailable}
use deep_thought.Sandbox.Asan.Headers.{report_from_header}
use deep_thought.Sandbox.{SandboxSpec, SandboxResult, CrashReport}
use deep_thought.Sandbox.Command.{build_argv}
use deep_thought.Sandbox.Host.{◌>>=◌, ◌>>◌, pure, lift, get, guard, set_active}
use deep_thought.Sandbox.Host.Findings.{Leaves, >>=-Leaves, guard-Leaves}
use deep_thought.Sandbox.Runtime.{
  Backend, Captured, prefix, force_remove, run_id, stream_capture, page, clear_if,
}
use deep_thought.Sandbox.Runtime.Findings.{
  page-Leaves, force_remove-Leaves, stream_capture-Leaves, clear_if-Leaves,
}
use deep_thought.Sandbox.Attest.{
  authorize, preflight_runtime, attest, check_request, verify_baked_input,
}
use deep_thought.Sandbox.Attest.Findings.{
  authorize-Leaves, preflight_runtime-Leaves, attest-Leaves, check_request-Leaves,
  verify_baked_input-Leaves,
}
use deep_thought.Sandbox.Docker.{
  drop_two, launch_named, launch, with_report, reported, crash_of, ended, ended_with, ran_out,
  too_long, judge, run_authorized, run, is_runner_infra_exit, is_runtime_error_exit, removed,
  teardown_of, teardown,
}

module _ (m : Backend) where
  launch_named-Leaves : (base : List String) (name : String) → Leaves (launch_named m base name)
  unfolding launch_named
  launch_named-Leaves base name =
      let argv = prefix m ++ "run" ∷ "--name" ∷ name ∷ drop_two base in
      let after = λ (c : Captured). clear_if m c.container_gone >>= λ _. pure (name, c) in
      >>=-Leaves (set_active (some name)) (λ _. stream_capture m argv name >>= after) (λ d. refl)
        (λ _.
          >>=-Leaves (stream_capture m argv name) after (stream_capture-Leaves m argv name) (λ c.
            >>=-Leaves (clear_if m c.container_gone) (λ _. pure (name, c))
              (clear_if-Leaves m c.container_gone) (λ _ d. refl)))

  launch-Leaves : (base : List String) → Leaves (launch m base)
  unfolding launch run_id
  launch-Leaves base =
      >>=-Leaves (run_id m base) (launch_named m base) (λ d. refl) (launch_named-Leaves base)

  with_report-Leaves :
      (name : String) (o : Option CrashReport) (report : String)
      → Leaves (with_report m name o report)
  unfolding with_report
  with_report-Leaves name none report d = refl
  with_report-Leaves name (some crash) report d =
      >>=-Leaves (page m name "asan-report.txt" report)
        (λ raw_ref. pure (some (record crash { raw_ref = raw_ref })))
        (page-Leaves m name "asan-report.txt" report) (λ _ e. refl) d

  -- both outputs paged, and an answer
  paged-Leaves :
      (name out err : String) (answer : Option String → Option String → SandboxResult)
      → Leaves (
          page m name "stdout.txt" out >>= λ o.
          page m name "stderr.txt" err >>= λ e. pure (answer o e))
  paged-Leaves name out err answer =
      >>=-Leaves (page m name "stdout.txt" out)
        (λ o. page m name "stderr.txt" err >>= λ e. pure (answer o e))
        (page-Leaves m name "stdout.txt" out)
        (λ o.
          >>=-Leaves (page m name "stderr.txt" err) (λ e. pure (answer o e))
            (page-Leaves m name "stderr.txt" err) (λ _ d. refl))

  reported-Leaves :
      (name : String) (wall : Float) (c : Captured) (code : ℤ) (found : Option CrashReport)
      → Leaves (reported m name wall c code found)
  unfolding reported
  reported-Leaves name wall c code found =
      let answer : Option CrashReport → Option String → Option String → SandboxResult = λ crash o e.
        record {
          exit_code = code;
          timed_out = false;
          wall_seconds = wall;
          stdout_ref = o;
          stderr_ref = e;
          reproduced = is_some found;
          crash = crash;
        } in
      >>=-Leaves (with_report m name found (report_from_header (c.stdout & ("\n" & c.stderr))))
        (λ crash. page m name "stdout.txt" c.stdout >>= λ o.
          page m name "stderr.txt" c.stderr >>= λ e. pure (answer crash o e))
        (with_report-Leaves name found _)
        (λ crash. paged-Leaves name c.stdout c.stderr (answer crash))

  ended-Leaves :
      (name : String) (wall : Float) (c : Captured) (code : ℤ) → Leaves (ended m name wall c code)
  unfolding ended
  ended-Leaves name wall c code =
      let done = reported m name wall c code (crash_of m c code) in
      let ran = guard (not (is_runtime_error_exit code)) (
        isolation_unavailable (
          m.config.runtime
          & (" could not run the container (exit "
              & (show_int code & "); the target did not execute")))) in
      >>=-Leaves
        (guard (not (is_runner_infra_exit code)) (
          sandbox_error (
            "the trusted wrapper failed before the target ran (exit "
            & (show_int code & "); no repro executed"))))
        (λ _. ran >> done) (guard-Leaves _ _)
        (λ _.
          >>=-Leaves ran (λ _. done) (guard-Leaves _ _)
            (λ _. reported-Leaves name wall c code (crash_of m c code)))

  ended_with-Leaves :
      (name : String) (wall : Float) (c : Captured) (o : Option ℤ)
      → Leaves (ended_with m name wall c o)
  unfolding ended_with
  ended_with-Leaves name wall c none d = refl
  ended_with-Leaves name wall c (some code) d = ended-Leaves name wall c code d

  judge-Leaves : (name : String) (wall : Float) (c : Captured) → Leaves (judge m name wall c)
  unfolding judge ran_out
  judge-Leaves name wall c =
      if_ind Leaves c.timed_out _ _ (λ _. paged-Leaves name c.stdout c.stderr _)
        (λ _.
          >>=-Leaves (guard (not c.overflowed) (sandbox_error (too_long m)))
            (λ _. ended_with m name wall c c.returncode) (guard-Leaves _ _)
            (λ _. ended_with-Leaves name wall c c.returncode))

  run_authorized-Leaves : (spec : SandboxSpec) → Leaves (run_authorized m spec)
  unfolding run_authorized
  run_authorized-Leaves spec =
      let judged = λ (l : String × Captured). get >>= λ x. judge m l.0 (m.host.wall x.calls) l.1 in
      let verified = λ (p : SandboxSpec) (base : List String).
        verify_baked_input m p >>= λ _. launch m base >>= judged in
      let rendered = λ (p : SandboxSpec). build_argv m.lib.show_float m.config.runtime p p.policy in
      let checked =
        λ (p : SandboxSpec). check_request m p >>= λ _. lift (rendered p) >>= verified p in
      >>=-Leaves (preflight_runtime m) (λ _. attest m spec >>= checked) (preflight_runtime-Leaves m)
        (λ _. >>=-Leaves (attest m spec) checked (attest-Leaves m spec) (λ p.
          >>=-Leaves (check_request m p) (λ _. lift (rendered p) >>= verified p)
            (check_request-Leaves m p)
            (λ _.
              >>=-Leaves (lift (rendered p)) (verified p) (λ d. refl)
                (λ base.
                  >>=-Leaves (verify_baked_input m p) (λ _. launch m base >>= judged)
                    (verify_baked_input-Leaves m p)
                    (λ _.
                      >>=-Leaves (launch m base) judged (launch-Leaves base)
                        (λ l d. judge-Leaves l.0 (m.host.wall d.calls) l.1 d))))))

  pub run-Leaves : (spec : SandboxSpec) → Leaves (run m spec)
  unfolding run
  run-Leaves spec =
      >>=-Leaves (authorize m) (λ _. run_authorized m spec) (authorize-Leaves m)
        (λ _. run_authorized-Leaves spec)

  removed-Leaves : (leaked : String) (b : Bool) → Leaves (removed m leaked b)
  unfolding removed
  removed-Leaves leaked true d = refl
  removed-Leaves leaked false d = refl

  teardown_of-Leaves : (o : Option String) → Leaves (teardown_of m o)
  unfolding teardown_of
  teardown_of-Leaves none d = refl
  teardown_of-Leaves (some leaked) d =
      >>=-Leaves (force_remove m leaked) (removed m leaked) (force_remove-Leaves m leaked)
        (removed-Leaves leaked) d

  pub teardown-Leaves : Leaves (teardown m)
  unfolding teardown
  teardown-Leaves d = teardown_of-Leaves d.active_container d
