-- ===== src/Sandbox/Attest.antt =====
-- What `DockerSandbox.run` checks before it launches anything (src/deepthought/sandbox/docker.py):
-- the gates, the image by its content, the shape of the request and the input in the image.
pub mod Passed
pub mod Input
pub mod Findings
use deep_thought.Prelude.{
  if◌then◌else◌, ℕ, String, ◌&◌, Bool, false, not, ◌&&◌, ◌||◌, Option, none, some, List, [], ◌∷◌,
  ◌++◌, ◌==◌, map,
}
use deep_thought.Prelude.Text.{strip, strip_of, has_char, join, repr}
use deep_thought.Prelude.Ints.{ℤ, is_nat, show_int}
use deep_thought.Prelude.FilePaths.{starts_with, normpath, join_path}
use deep_thought.Result.{sandbox_error, execution_disabled, signoff_required, isolation_unavailable}
use deep_thought.Store.Detail.{detail_exists, read_detail}
use deep_thought.Sandbox.{Signoff, valid_for, SandboxSpec}
use deep_thought.Sandbox.Command.{hardening_flags, safe_image}
use deep_thought.Sandbox.Host.{
  Executed, failed, exited, M, ◌>>=◌, ◌>>◌, pure, throw, lift, get, guard, set_active,
}
use deep_thought.Sandbox.Runtime.{
  Backend, Captured, is_pinnable, runtime_prefix, prefix, execute, run_id, stream_capture, clear_if,
}

abbrev pub seed_dir : String
seed_dir = "/seeds/"

abbrev pub trusted_runner : String
trusted_runner = "/runner"

abbrev pub is_zero : Option ℤ → Bool
is_zero none = false
is_zero (some code) = is_nat 0 code

-- `{returncode}` of a format
abbrev code_text : Option ℤ → String
code_text none = "None"
code_text (some code) = show_int code

abbrev repr_list : List String → String
repr_list l = "[" & (join ", " (map (λ t. repr t) l) & "]")

abbrev repr_option : Option String → String
repr_option none = "None"
repr_option (some s) = repr s

-- `os.path.normpath(os.path.join(spec.workdir, path))`
abbrev absolute : SandboxSpec → String → String
absolute spec path = normpath (join_path spec.workdir path)

abbrev takes_one : SandboxSpec → List String → Bool
takes_one spec (harness ∷ input ∷ []) =
    spec.executable == trusted_runner
    && (input == spec.input_path && not (absolute spec harness == absolute spec spec.input_path))
takes_one spec _ = false

-- exactly the trusted wrapper, a harness that is not the input, and the input
unfoldable pub is_single_input : SandboxSpec → Bool
unfolding normpath join_path
is_single_input spec = takes_one spec spec.arguments

module _ (m : Backend) where
  reachable : Executed → M (Unit {0})
  reachable (failed why) =
      throw (isolation_unavailable (m.config.runtime & (" runtime probe failed: " & why)))
  reachable (exited code out err) = guard (is_nat 0 code) (
      isolation_unavailable (
        m.config.runtime
        & (" daemon is not reachable (probe exit " & (show_int code & "); refusing to run"))))

  -- `_preflight_runtime`
  unfoldable pub preflight_runtime : M (Unit {0})
  unfolding runtime_prefix reachable show_int
  preflight_runtime = do answer ← execute m (prefix m ++ "version" ∷ []); reachable answer

  inspected : String → Executed → M String
  inspected image (failed why) =
      throw (sandbox_error ("could not inspect image " & (repr image & (": " & why))))
  inspected image (exited code out err) = do
    guard (is_nat 0 code) (
        sandbox_error (
          "could not inspect image "
          & (repr image & (" (exit " & (show_int code & "); cannot attest it")))))
    pure (strip out)

  -- `_image_id`
  unfoldable pub image_id : String → M String
  unfolding runtime_prefix safe_image inspected show_int strip_of
  image_id image = do
    ref ← lift (safe_image image)
    answer ← execute m (prefix m ++ "image" ∷ "inspect" ∷ "--format" ∷ "{{.Id}}" ∷ ref ∷ [])
    inspected image answer

  -- the checks on what a read of the baked input gave
  bound : SandboxSpec → String → String → Captured → M (Unit {0})
  unfolding has_char show_int
  bound spec stored name c = do
    guard (not (c.timed_out || c.overflowed)) (
        sandbox_error (
          "reading baked input "
          & (repr spec.input_path & " exceeded the read limits; refusing to verify")))
    guard (is_zero c.returncode) (
        sandbox_error (
          "could not read baked input "
          & (repr spec.input_path & (" from the image (exit " & (code_text c.returncode & ")")))))
    guard (not (has_char 0xfffd c.stdout || has_char 0xfffd stored)) (
        sandbox_error (
          "baked input "
          & (repr spec.input_path
              & " (or the stored repro) is not valid UTF-8; the text repro store cannot bind a binary seed byte-exactly")))
    guard (c.stdout == stored) (
        sandbox_error (
          "baked input "
          & (repr spec.input_path
              & (" does not match the stored repro "
                  & (repr spec.repro_ref & "; refusing to verify an unbound input")))))
    guard c.container_gone (
        sandbox_error (
          "could not confirm removal of the input-read container "
          & (repr name & "; refusing to continue (teardown will retry the cleanup)")))

  stored_text : SandboxSpec → Option String → M String
  stored_text spec none =
      throw (
        sandbox_error ("repro_ref " & (repr spec.repro_ref & " does not resolve; refusing to run")))
  stored_text spec (some text) = pure text

  -- the read of the baked input under a name, and the checks on it
  read_baked : SandboxSpec → String → List String → String → M (Unit {0})
  unfolding bound stream_capture runtime_prefix
  read_baked spec stored rest name = do
    set_active (some name)
    c ← stream_capture m (prefix m ++ "run" ∷ "--name" ∷ name ∷ rest) name
    clear_if m c.container_gone
    bound spec stored name c

  -- `_verify_baked_input`
  unfoldable pub verify_baked_input : SandboxSpec → M (Unit {0})
  unfolding runtime_prefix stored_text hardening_flags safe_image run_id read_baked
  verify_baked_input spec = do
    d ← get
    stored ← stored_text spec (read_detail d.store spec.repro_ref)
    flags ← lift (hardening_flags m.lib.show_float spec.policy spec.workdir)
    image ← lift (safe_image spec.image)
    let rest = flags ++ "--entrypoint" ∷ "/bin/cat" ∷ image ∷ "--" ∷ spec.input_path ∷ []
    name ← run_id m (prefix m ++ "run" ∷ rest)
    read_baked spec stored rest name

  abbrev signed : ℕ → Option Signoff → Option String → Bool
  signed now (some s) (some p) = valid_for m.lib.fromisoformat now s p none
  signed now _ _ = false

  -- the conditions of `SignoffRequired`
  abbrev pub is_signed : ℕ → Bool
  is_signed now = signed now m.config.signoff m.config.project

  -- the checks that come before any call of the runtime
  unfoldable pub authorize : M (Unit {0})
  unfolding is_pinnable valid_for
  authorize = do
    guard m.config.execution_enabled (
        execution_disabled
          "execution requires Mahdi's sign-off — the 003 hard stop (Article III); provide a valid Signoff and set execution_enabled")
    d ← get
    guard (is_signed (m.host.utcnow d.calls)) (
        signoff_required (
          "execution is enabled but there is no valid sign-off for project "
          & (repr_option m.config.project & " (Article III)")))
    guard (m.host.which d.calls m.config.runtime)
        (isolation_unavailable ("container runtime not found: " & m.config.runtime))
    guard (is_pinnable m.config.runtime) (
        isolation_unavailable (
          "runtime "
          & (repr m.config.runtime
              & " cannot be pinned to the local daemon; refusing to execute (only docker is locally pinned). A non-docker client may route off-host, breaking the local-only guarantee.")))

  -- the request with the image by its content, if that is the attested one
  same_digest : SandboxSpec → String → M SandboxSpec
  same_digest spec actual = do
    guard (actual == spec.image_digest) (
        sandbox_error (
          "image "
          & (repr spec.image
              & (" has content digest "
                  & (repr actual
                      & (", not the attested "
                          & (repr spec.image_digest & "; refusing to run an unattested image")))))))
    pure (record spec { image = actual })

  -- the image by its content: the id that the tag resolves to
  unfoldable pub attest : SandboxSpec → M SandboxSpec
  unfolding image_id same_digest
  attest spec =
      if spec.image_digest == ""
      then throw (
          sandbox_error
            "executing run requires spec.image_digest (the expected sha256 image ID) to attest the image the repro runs in")
      else (do actual ← image_id spec.image; same_digest spec actual)

  -- the checks on the request, from the provenance to the shape of the command
  unfoldable pub check_request : SandboxSpec → M (Unit {0})
  unfolding detail_exists normpath is_single_input
  check_request spec = do
    d ← get
    guard
        (m.config.has_store && (not (spec.repro_ref == "") && detail_exists d.store spec.repro_ref))
        (sandbox_error (
          "executing run requires a store-backed repro: repro_ref "
          & (repr spec.repro_ref & " must resolve in a configured store (provenance)")))
    guard (not (spec.input_path == "")) (
        sandbox_error
          "executing run requires spec.input_path (the in-image repro path) so the executed input can be bound to the stored repro")
    guard (starts_with "/" spec.workdir)
        (sandbox_error ("executing run requires an absolute workdir; got " & repr spec.workdir))
    guard (starts_with seed_dir (normpath spec.input_path)) (
        sandbox_error (
          "executing run requires input_path under the immutable seed dir "
          & (repr seed_dir & ("; got " & (repr spec.input_path & " (no pseudo/dynamic files)")))))
    guard (is_single_input spec) (
        sandbox_error (
          "spec.command "
          & (repr_list (spec.executable ∷ spec.arguments)
              & (" must be exactly ["
                  & (repr trusted_runner
                      & (", harness, "
                          & (repr spec.input_path
                              & "] — the trusted wrapper, a distinct harness, and the bound input (verbatim) as the sole positional argument")))))))
