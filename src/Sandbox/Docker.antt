-- ===== src/Sandbox/Docker.antt =====
-- The hardened container backend (`DockerSandbox` of src/deepthought/sandbox/docker.py): `run` and
-- `teardown`. The command line is in Command, the reader of the output in Capture, the machine in
-- Host, the runtime's calls in Runtime, and what comes before a launch in Attest.
pub mod Gates
pub mod Evidence
pub mod Cleanup
pub mod Findings
use deep_thought.Prelude.{
  ℕ, String, ◌&◌, Bool, true, false, not, ◌||◌, Option, none, some, List, [], ◌∷◌, ◌++◌, is_some,
  if◌then◌else◌,
}
use deep_thought.Prelude.Text.{contains, repr, show}
use deep_thought.Prelude.Ints.{ℤ, negsuc, is_nat, show_int}
use deep_thought.Schema.Json.{Float}
use deep_thought.Result.{sandbox_error, isolation_unavailable}
use deep_thought.Sandbox.Asan.{parse_asan}
use deep_thought.Sandbox.Asan.Headers.{report_from_header}
use deep_thought.Sandbox.{SandboxSpec, SandboxResult, CrashReport}
use deep_thought.Sandbox.Command.{build_argv}
use deep_thought.Sandbox.Host.{M, ◌>>=◌, ◌>>◌, pure, throw, lift, get, guard, set_active}
use deep_thought.Sandbox.Capture.{capture_max}
use deep_thought.Sandbox.Runtime.{
  Backend, Captured, runtime_prefix, prefix, force_remove, run_id, stream_capture, page, clear_if,
}
use deep_thought.Sandbox.Attest.{
  authorize, preflight_runtime, attest, check_request, verify_baked_input,
}

abbrev pub sanitizer_crash_exit : ℕ
sanitizer_crash_exit = 99

abbrev any_of : List ℕ → ℤ → Bool
any_of [] code = false
any_of (n ∷ ns) code = is_nat n code || any_of ns code

abbrev pub is_runner_infra_exit : ℤ → Bool
is_runner_infra_exit = any_of (100 ∷ 101 ∷ 102 ∷ 103 ∷ 104 ∷ [])

abbrev pub is_runtime_error_exit : ℤ → Bool
is_runtime_error_exit = any_of (125 ∷ 126 ∷ 127 ∷ [])

-- `returncode if returncode is not None else -1`
abbrev code_or : Option ℤ → ℤ
code_or none = negsuc 0
code_or (some code) = code

-- `base_argv[2:]`
abbrev pub drop_two : List String → List String
drop_two (_ ∷ _ ∷ rest) = rest
drop_two _ = []

module _ (m : Backend) where
  launch_named : List String → String → M (String × Captured)
  unfolding stream_capture runtime_prefix
  launch_named base name = do
    set_active (some name)
    c ← stream_capture m (prefix m ++ "run" ∷ "--name" ∷ name ∷ drop_two base) name
    clear_if m c.container_gone
    pure (name, c)

  -- the launch, and what it came to
  unfoldable pub launch : List String → M (String × Captured)
  unfolding run_id launch_named
  launch base = do name ← run_id m base; launch_named base name

  with_report : String → Option CrashReport → String → M (Option CrashReport)
  unfolding page
  with_report name none report = pure none
  with_report name (some crash) report = do
    raw_ref ← page m name "asan-report.txt" report
    pure (some (record crash { raw_ref = raw_ref }))

  -- the result of a run whose crash was or was not found
  reported : String → Float → Captured → ℤ → Option CrashReport → M SandboxResult
  unfolding page with_report
  reported name wall c code found = do
    crash ← with_report name found (report_from_header (c.stdout & ("\n" & c.stderr)))
    stdout_ref ← page m name "stdout.txt" c.stdout
    stderr_ref ← page m name "stderr.txt" c.stderr
    pure (record {
      exit_code = code;
      timed_out = false;
      wall_seconds = wall;
      stdout_ref = stdout_ref;
      stderr_ref = stderr_ref;
      reproduced = is_some found;
      crash = crash;
    })

  -- a crash counts only under the wrapper's own exit code
  abbrev pub crash_of : Captured → ℤ → Option CrashReport
  crash_of c code =
      if is_nat sanitizer_crash_exit code
      then parse_asan m.lib.sha256 m.lib.is_wide m.lib.wide_digit (c.stdout & ("\n" & c.stderr))
      else none

  -- a run that came to its end, by its exit code
  ended : String → Float → Captured → ℤ → M SandboxResult
  unfolding reported
  ended name wall c code = do
    guard (not (is_runner_infra_exit code)) (
        sandbox_error (
          "the trusted wrapper failed before the target ran (exit "
          & (show_int code & "); no repro executed")))
    guard (not (is_runtime_error_exit code)) (
        isolation_unavailable (
          m.config.runtime
          & (" could not run the container (exit "
              & (show_int code & "); the target did not execute"))))
    reported name wall c code (crash_of c code)

  ended_with : String → Float → Captured → Option ℤ → M SandboxResult
  unfolding ended
  ended_with name wall c none =
      throw (sandbox_error "container exit code could not be determined; run aborted")
  ended_with name wall c (some code) = ended name wall c code

  ran_out : String → Float → Captured → M SandboxResult
  unfolding page
  ran_out name wall c = do
    stdout_ref ← page m name "stdout.txt" c.stdout
    stderr_ref ← page m name "stderr.txt" c.stderr
    pure (record {
      exit_code = code_or c.returncode;
      timed_out = true;
      wall_seconds = wall;
      stdout_ref = stdout_ref;
      stderr_ref = stderr_ref;
      reproduced = false;
      crash = none;
    })

  abbrev pub too_long : String
  too_long = "target exceeded the " & (show capture_max & "-byte output cap; run aborted")

  -- the verdict on a captured run
  unfoldable pub judge : String → Float → Captured → M SandboxResult
  unfolding ended_with ran_out show
  judge name wall c = if c.timed_out then ran_out name wall c else (do
    guard (not c.overflowed) (sandbox_error too_long)
    ended_with name wall c c.returncode)

  -- `run` after its gates
  unfoldable pub run_authorized : SandboxSpec → M SandboxResult
  unfolding preflight_runtime attest check_request build_argv verify_baked_input launch judge
  run_authorized spec = do
    preflight_runtime m
    pinned ← attest m spec
    check_request m pinned
    base ← lift (build_argv m.lib.show_float m.config.runtime pinned pinned.policy)
    verify_baked_input m pinned
    launched_as ← launch base
    d ← get
    judge launched_as.0 (m.host.wall d.calls) launched_as.1

  -- `DockerSandbox.run`
  unfoldable pub run : SandboxSpec → M SandboxResult
  unfolding authorize run_authorized
  run spec = do authorize m; run_authorized spec

  -- whether the removal is confirmed
  removed : String → Bool → M (Unit {0})
  removed leaked true = set_active none
  removed leaked false = throw (
      sandbox_error (
        "container "
        & (repr leaked
            & (" could not be confirmed removed; it may still be running — manual cleanup required ("
                & (m.config.runtime & (" rm -f " & (leaked & ")")))))))

  -- `DockerSandbox.teardown`
  teardown_of : Option String → M (Unit {0})
  unfolding force_remove removed
  teardown_of none = pure tt
  teardown_of (some leaked) = do gone ← force_remove m leaked; removed leaked gone

  unfoldable pub teardown : M (Unit {0})
  unfolding teardown_of
  teardown = do d ← get; teardown_of d.active_container
