-- ===== src/Sandbox/Runtime.antt =====
-- The container runtime as processes (the helpers of `DockerSandbox` in
-- src/deepthought/sandbox/docker.py), with the prefix that pins Docker to the local daemon.
pub mod Output
pub mod Findings
use deep_thought.Prelude.{
  ℕ, ◌/◌, ◌%◌, String, ◌&◌, Bool, true, false, not, ◌&&◌, ◌||◌, Option, none, some, List, [], ◌∷◌,
  ◌++◌, ◌==◌, member, if◌then◌else◌,
}
use deep_thought.Prelude.Text.{lower, contains, join, pad}
use deep_thought.Prelude.Time.{civil}
use deep_thought.Prelude.Ints.{ℤ, is_nat}
use deep_thought.Prelude.FilePaths.{basename}
use deep_thought.Ids.{take_chars}
use deep_thought.Result.{Result, ok, os_error}
use deep_thought.Store.Detail.{write_detail, detail_ref}
use deep_thought.Sandbox.{Signoff}
use deep_thought.Sandbox.Host.{
  executed, launched, Executed, failed, exited, Process, Launched, not_started, interrupted,
  started, Host, Library, Docker, M, ◌>>=◌, ◌>>◌, pure, throw, get, set_active, record_call,
}
use deep_thought.Sandbox.Capture.{Reader, capture_max, fresh_reader, read_loop}

-- how the sandbox is configured
pub record DockerSandbox : Type 0 where
  pub execution_enabled : Bool
  pub project : Option String
  pub signoff : Option Signoff
  pub has_store : Bool
  pub runtime : String

-- the sandbox with what it runs on
pub record Backend : Type 0 where
  pub host : Host
  pub lib : Library
  pub config : DockerSandbox

abbrev pub output_max : ℕ
output_max = 65536

-- `_PINNABLE_RUNTIMES`, by the base name
unfoldable pub is_pinnable : String → Bool
unfolding basename lower
is_pinnable runtime = member (lower (basename runtime)) ("docker" ∷ "docker.exe" ∷ [])

-- `_runtime`
unfoldable pub runtime_prefix : String → List String
unfolding is_pinnable
runtime_prefix runtime =
    if is_pinnable runtime then runtime ∷ "--context" ∷ "default" ∷ [] else runtime ∷ []

-- `clock().strftime("%Y%m%d-%H%M%S")`
stamp : ℕ → String
unfolding civil pad
stamp t =
    let (y, m, d) = civil (t / 86400000000) in
    let s = t / 1000000 in
    pad 4 y
    & (pad 2 m
        & (pad 2 d & ("-" & (pad 2 (s / 3600 % 24) & (pad 2 (s / 60 % 60) & pad 2 (s % 60))))))

-- what `_stream_capture` returns
pub record Captured : Type 0 where
  pub returncode : Option ℤ
  pub stdout : String
  pub stderr : String
  pub timed_out : Bool
  pub overflowed : Bool
  pub container_gone : Bool

-- the paged text, if there is one to page
abbrev page_text : String → String → Bool → String → Docker → Docker × Result (Option String)
page_text run_id name false content d = (d, ok none)
page_text run_id name true content d = (
  record d { store = write_detail d.store run_id name (take_chars output_max content) },
  ok (some (detail_ref run_id name)),
)

module _ (m : Backend) where
  abbrev pub prefix : List String
  prefix = runtime_prefix m.config.runtime

  -- `subprocess.run`
  abbrev pub execute : List String → M Executed
  execute argv = do d ← get; record_call (executed argv); pure (m.host.execute d.calls argv)

  -- whether an answer of `rm -f` confirms that the container is gone
  abbrev pub confirms : Executed → Bool
  confirms (failed why) = false
  confirms (exited code out err) = is_nat 0 code || contains "no such container" (lower err)

  -- `_force_remove`
  unfoldable pub force_remove : String → M Bool
  unfolding runtime_prefix lower contains
  force_remove name = do
    answer ← execute (prefix ++ "rm" ∷ "-f" ∷ name ∷ [])
    pure (confirms answer)

  -- `_run_id`
  unfoldable pub run_id : List String → M String
  unfolding stamp join
  run_id argv = do
    d ← get
    pure (
        "sandbox-"
        & (stamp (m.host.utcnow d.calls)
            & ("-"
                & (take_chars 8 (m.lib.sha256 (join "\0" argv)) & ("-" & m.host.nonce d.calls)))))

  -- the end of `_stream_capture`, after the loop
  collected : String → Process → Reader → M Captured
  unfolding force_remove
  collected name p r = do
    gone ← force_remove name
    pure (record {
      returncode = p.returncode;
      stdout = m.lib.decode r.out;
      stderr = m.lib.decode r.err;
      timed_out = r.timed_out || not (r.timed_out || r.overflowed) && not p.exits;
      overflowed = r.overflowed;
      container_gone = gone;
    })

  read_process : String → Launched → M Captured
  unfolding force_remove collected read_loop
  read_process name (not_started why) = throw (os_error why)
  read_process name (interrupted why p) = do gone ← force_remove name; throw (os_error why)
  read_process name (started p) = collected name p (read_loop capture_max p.events fresh_reader)

  -- `_stream_capture`
  unfoldable pub stream_capture : List String → String → M Captured
  unfolding read_process
  stream_capture argv name = do
    d ← get
    record_call (launched argv)
    read_process name (m.host.launch d.calls argv)

  -- `_page`
  unfoldable pub page : String → String → String → M (Option String)
  page name file content = page_text name file (m.config.has_store && not (content == "")) content

  abbrev pub clear_if : Bool → M (Unit {0})
  clear_if true d = set_active none d
  clear_if false d = pure tt d
