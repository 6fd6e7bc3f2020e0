-- ===== src/Examples/Containers.antt =====
-- The sandbox on a host where one repro crashes its harness.
use deep_thought.Prelude.{
  String, ◌≡◌, refl, true, false, none, some, List, [], ◌∷◌, ◌==◌, member, ltb, arith,
  if◌then◌else◌,
}
use deep_thought.Prelude.Ints.{pos}
use deep_thought.Schema.Json.{finite}
use deep_thought.Result.{Result, ok, is_raised}
use deep_thought.Sandbox.{Signoff, SandboxPolicy, SandboxSpec, SandboxResult, is_locked}
use deep_thought.Sandbox.Host.{
  Bytes, failed, exited, Process, started, ready, Host, Library, Docker,
}
use deep_thought.Sandbox.Capture.{fresh_reader, read_loop}
use deep_thought.Sandbox.Capture.Bounds.{IsBounded, read_loop-IsBounded}
use deep_thought.Sandbox.Runtime.{Backend}
use deep_thought.Sandbox.Docker.{run, teardown}
use deep_thought.Sandbox.Docker.Gates.{is_authorized, run_refused}
use deep_thought.Sandbox.Docker.Evidence.{Evidence}
use deep_thought.Sandbox.Docker.Cleanup.{IsTornDown, teardown-IsTornDown}
use deep_thought.Examples.Samples.{store}

abbrev policy : SandboxPolicy
policy = record {
  network = "none";
  read_only_rootfs = true;
  drop_all_caps = true;
  no_new_privileges = true;
  run_as_non_root = true;
  allow_host_mounts = false;
  pids_limit = 128;
  memory_mib = 512;
  cpus = finite false 1 0;
  wall_timeout_seconds = 30;
  ephemeral = true;
  user = "65534:65534";
}

abbrev pub spec : SandboxSpec
spec = record {
  image = "cjson:pinned";
  image_digest = "sha256:1";
  executable = "/runner";
  arguments = "/harness" ∷ "/seeds/trigger" ∷ [];
  repro_ref = "detail/S-1/verify-result.txt";
  input_path = "/seeds/trigger";
  workdir = "/work";
  env = ("ASAN_OPTIONS", "abort_on_error=1") ∷ [];
  policy = policy;
}

-- a read of the seed by `cat`, or the crash of the harness
abbrev answer : List String → Process
answer argv =
    if member "/bin/cat" argv
    then (record {
      events = ready ((true, 1 ∷ []) ∷ []) ∷ ready ((true, []) ∷ (false, []) ∷ []) ∷ [];
      exits = true;
      returncode = some (pos 0);
    })
    else (record {
      events = ready ((false, 2 ∷ []) ∷ []) ∷ ready ((true, []) ∷ (false, []) ∷ []) ∷ [];
      exits = true;
      returncode = some (pos 99);
    })

abbrev host : Host
host = record {
  which = λ calls runtime. true;
  execute = λ calls argv. exited (pos 0) "sha256:1" "";
  launch = λ calls argv. started (answer argv);
  utcnow = λ calls. 1780000000000000;
  nonce = λ calls. "00000000";
  wall = λ calls. finite false 1 1;
}

abbrev text_of : Bytes → String
text_of [] = ""
text_of (b ∷ bs) =
    if ltb b 2
    then "reproduced: True"
    else "ERROR: AddressSanitizer: SEGV\n#0 0x1f in parse c.c:12:5"

abbrev lib : Library
lib = record {
  decode = text_of;
  sha256 = λ s. "0123456789abcdef";
  show_float = λ x. "1.0";
  fromisoformat =
      λ s. some (some (if s == "2026-01-01T00:00:00+00:00" then 0 else 1790000000000000));
  is_wide = λ c. false;
  wide_digit = λ c. none;
}

abbrev signoff : Signoff
signoff = record {
  approver = "Mahdi";
  project = "php-src";
  granted_at = "2026-01-01T00:00:00Z";
  expires_at = "2027-01-01T00:00:00Z";
  reason = "benchmark";
}

abbrev pub signed : Backend
signed = record {
  host = host;
  lib = lib;
  config = record {
    execution_enabled = true;
    project = some "php-src";
    signoff = some signoff;
    has_store = true;
    runtime = "docker";
  };
}

abbrev unsigned : Backend
unsigned = record signed { config = record signed.config { signoff = none } }

abbrev idle_docker : Docker
idle_docker = record { store = store; active_container = none; calls = [] }

pub locked : is_locked policy ≡ true
unfolding is_locked
locked = refl

abbrev argv_of : Result (List String) → List String
argv_of (ok argv) = argv
argv_of _ = []

fresh_reader-IsBounded : IsBounded 4 fresh_reader
fresh_reader-IsBounded = record { counted = refl; within = omega arith; overflow = refl }

read_loop-IsBounded_example :
    IsBounded 4
      (read_loop 4 (ready ((true, 1 ∷ 2 ∷ 3 ∷ []) ∷ (false, 4 ∷ 5 ∷ []) ∷ []) ∷ []) fresh_reader)
read_loop-IsBounded_example =
    read_loop-IsBounded 4 (ready ((true, 1 ∷ 2 ∷ 3 ∷ []) ∷ (false, 4 ∷ 5 ∷ []) ∷ []) ∷ [])
      fresh_reader fresh_reader-IsBounded

no_signoff : is_authorized unsigned idle_docker ≡ false
no_signoff = refl

run_refused_example :
    ((run unsigned spec idle_docker).0 ≡ idle_docker)
    × (is_raised (run unsigned spec idle_docker).1 ≡ true)
run_refused_example = run_refused unsigned spec idle_docker no_signoff

abbrev stuck : Backend
stuck = record signed { host = record host { execute = λ calls argv. failed "timed out" } }

abbrev holding : Docker
holding = record idle_docker { active_container = some "deepthought-1" }

still_held : (teardown stuck holding).0.active_container ≡ some "deepthought-1"
unfolding teardown
still_held = refl

teardown-IsTornDown_example : IsTornDown stuck holding (teardown stuck holding)
teardown-IsTornDown_example = teardown-IsTornDown stuck holding

abbrev result_of : Result SandboxResult → SandboxResult → SandboxResult
result_of (ok r) other = r
result_of _ other = other

abbrev nothing : SandboxResult
nothing = record {
  exit_code = pos 0;
  timed_out = false;
  wall_seconds = finite false 0 0;
  stdout_ref = none;
  stderr_ref = none;
  reproduced = false;
  crash = none;
}

abbrev reproduction : SandboxResult
reproduction = result_of (run signed spec idle_docker).1 nothing
