-- ===== src/Sandbox.antt =====
-- The sandbox's typed boundary (src/deepthought/sandbox/base.py): the policy, what to run, what
-- comes back, and the human sign-off. The parameter `fromisoformat` is the library's reader of
-- time stamps: none where it raises, and no instant for a stamp without a time zone.
pub mod Command
pub mod Host
pub mod Capture
pub mod Runtime
pub mod Attest
pub mod Docker
pub mod Seam
pub mod Asan
use Prim.Native.Char.{code}
use deep_thought.Prelude.{
  ℕ, ◌-◌, ◌≤◌, String, ◌&◌, Bool, true, false, not, ◌&&◌, Option, none, some, List, [], ◌∷◌, ◌==◌,
  eqb, leb, ltb, if◌then◌else◌,
}
use deep_thought.Prelude.Text.{strip, strip_of}
use deep_thought.Prelude.Ints.{ℤ}
use deep_thought.Schema.Json.{Float}

pub record Signoff : Type 0 where
  pub approver : String
  pub project : String
  pub granted_at : String
  pub expires_at : String
  pub reason : String

-- `value.replace("Z", "+00:00")`
zulu : String → String
zulu String.[] = ""
zulu (String.◌∷◌ c s) = (if eqb (code c) b'Z' then "+00:00" else String.◌∷◌ c "") & zulu s

aware : Option (Option ℕ) → Option ℕ
aware none = none
aware (some instant) = instant

-- `_parse_z`
unfoldable pub parse_z : (String → Option (Option ℕ)) → String → Option ℕ
unfolding zulu aware
parse_z fromisoformat value = aware (fromisoformat (zulu value))

abbrev in_window : Option ℕ → Option ℕ → Option ℕ → Bool
in_window (some granted) (some now) (some expires) = leb granted now && ltb now expires
in_window _ _ _ = false

abbrev instant : (String → Option (Option ℕ)) → ℕ → Option String → Option ℕ
unfolding parse_z
instant fromisoformat utcnow none = some utcnow
instant fromisoformat utcnow (some now) = parse_z fromisoformat now

-- `Signoff.valid_for`, with the answer of `utcnow()`
unfoldable pub valid_for :
    (String → Option (Option ℕ)) → ℕ → Signoff → String → Option String → Bool
unfolding parse_z instant
valid_for fromisoformat utcnow s project now =
    if not (s.project == project)
    then false
    else in_window (parse_z fromisoformat s.granted_at) (instant fromisoformat utcnow now)
        (parse_z fromisoformat s.expires_at)

pub record SandboxPolicy : Type 0 where
  pub network : String
  pub read_only_rootfs : Bool
  pub drop_all_caps : Bool
  pub no_new_privileges : Bool
  pub run_as_non_root : Bool
  pub allow_host_mounts : Bool
  pub pids_limit : ℕ
  pub memory_mib : ℕ
  pub cpus : Float
  pub wall_timeout_seconds : ℕ
  pub ephemeral : Bool
  pub user : String

-- the fields that the type locks by a literal
unfoldable pub is_locked : SandboxPolicy → Bool
is_locked p =
    p.network == "none"
    && (p.read_only_rootfs
        && (p.drop_all_caps
            && (p.no_new_privileges
                && (p.run_as_non_root && (not p.allow_host_mounts && p.ephemeral)))))

-- A command holds one token at least: the executable, and the arguments.
pub record SandboxSpec : Type 0 where
  pub image : String
  pub image_digest : String
  pub executable : String  -- `command[0]`
  pub arguments : List String  -- `command[1:]`
  pub repro_ref : String
  pub input_path : String
  pub workdir : String
  pub env : List (String × String)
  pub policy : SandboxPolicy

-- `_executable_token_is_non_empty`
unfoldable pub has_executable : SandboxSpec → Bool
unfolding strip_of
has_executable s = not (strip s.executable == "")

pub record CrashReport : Type 0 where
  pub sanitizer : String
  pub error_type : String
  pub access : String
  pub access_size : Option ℕ
  pub faulting_function : String
  pub faulting_location : String
  pub top_frames : List String
  pub dedup_key : String
  pub raw_ref : Option String

pub record SandboxResult : Type 0 where
  pub exit_code : ℤ
  pub timed_out : Bool
  pub wall_seconds : Float
  pub stdout_ref : Option String
  pub stderr_ref : Option String
  pub reproduced : Bool
  pub crash : Option CrashReport
