-- ===== src/Sandbox/Command.antt =====
-- The hardened command line (`build_argv` and its helpers in src/deepthought/sandbox/docker.py). The
-- parameter `show_float` is Python's `str` of a float.
pub mod Hardened
use Prim.Native.Char.{code}
use deep_thought.Prelude.{
  ℕ, ◌^◌, ◌/◌, ◌%◌, String, ◌&◌, Bool, true, false, not, ◌&&◌, ◌||◌, Option, none, some, List, [],
  ◌∷◌, ◌++◌, ◌==◌, eqb, leb, is_some, if◌then◌else◌,
}
use deep_thought.Prelude.Text.{strip, strip_of, after, has_char, show, repr}
use deep_thought.Prelude.Dirs.{Dir, write, lookup}
use deep_thought.Schema.Json.{Float, nan, inf, finite}
use deep_thought.Result.{Error, Result, ok, raise, sandbox_error, ◌>>=◌}
use deep_thought.Sandbox.{SandboxPolicy, SandboxSpec}

abbrev pub stop_grace_seconds : ℕ
stop_grace_seconds = 2

abbrev is_digit : ℕ → Bool
is_digit c = leb b'0' c && leb c b'9'

all_digits : String → Bool
all_digits String.[] = true
all_digits (String.◌∷◌ c s) = is_digit (code c) && all_digits s

all_zeros : String → Bool
all_zeros String.[] = true
all_zeros (String.◌∷◌ c s) = eqb (code c) b'0' && all_zeros s

-- `_NUMERIC_RE.fullmatch(s)`
unfoldable pub is_numeric : String → Bool
unfolding all_digits
is_numeric s = not (s == "") && all_digits s

-- a numeric uid that is not `int(uid) == 0`
unfoldable pub is_non_root : String → Bool
unfolding all_zeros is_numeric
is_non_root uid = is_numeric uid && not (all_zeros uid)

-- `s.partition(":")`: the text before the first colon, and the one after it if there is one
before_colon : String → String
before_colon String.[] = ""
before_colon (String.◌∷◌ c s) =
    let rest = before_colon s in if eqb (code c) b':' then "" else String.◌∷◌ c rest

after_colon : String → Option String
after_colon String.[] = none
after_colon (String.◌∷◌ c s) =
    let rest = after_colon s in if eqb (code c) b':' then some s else rest

refuse_uid : String → Error
refuse_uid user = sandbox_error (
    "run_as_non_root requires a numeric non-zero UID; user "
    & (repr user & " is refused (a named or zero UID can run as root)"))

refuse_gid : String → Error
refuse_gid user =
    sandbox_error
      ("run_as_non_root requires a numeric gid; user " & (repr user & " has a non-numeric gid"))

-- the value of `--user`, from the uid and the gid that are there
user_value : String → String → Option String → Result String
unfolding is_non_root is_numeric refuse_uid refuse_gid
user_value user uid none = if is_non_root uid then ok uid else raise (refuse_uid user)
user_value user uid (some gid) =
    if not (is_non_root uid)
    then raise (refuse_uid user)
    else if is_numeric gid
    then ok (uid & (":" & gid))
    else raise (refuse_gid user)

stripped : Option String → Option String
unfolding strip_of
stripped none = none
stripped (some s) = some (strip s)

unfoldable pub user_flags : SandboxPolicy → Result (List String)
unfolding user_value before_colon after_colon stripped strip_of
user_flags p =
    if p.run_as_non_root
    then (do
      value ← user_value p.user (strip (before_colon p.user)) (stripped (after_colon p.user))
      ok ("--user" ∷ value ∷ []))
    else ok []

-- `_format_cpus`; the type of the field excludes `inf` and `nan`
unfoldable pub format_cpus : (Float → String) → Float → String
unfolding show
format_cpus show_float (finite neg m k) =
    if eqb (m % 2 ^ k) 0
    then (if neg && not (eqb m 0) then "-" else "") & show (m / 2 ^ k)
    else show_float (finite neg m k)
format_cpus show_float x = show_float x

abbrev pub when : Bool → String → List String
when b flag = if b then flag ∷ [] else []

-- the flags before `--user`
unfoldable pub isolation_flags : SandboxPolicy → List String
isolation_flags p =
    when p.ephemeral "--rm"
    ++ (("--network=" & p.network) ∷ "--pull=never" ∷ [])
    ++ when p.read_only_rootfs "--read-only"
    ++ when p.drop_all_caps "--cap-drop=ALL"
    ++ when p.no_new_privileges "--security-opt=no-new-privileges"

-- the flags after it
unfoldable pub limit_flags : (Float → String) → SandboxPolicy → String → List String
unfolding format_cpus show
limit_flags show_float p workdir =
    "--pids-limit"
    ∷ show p.pids_limit
    ∷ "--memory"
    ∷ (show p.memory_mib & "m")
    ∷ "--memory-swap"
    ∷ (show p.memory_mib & "m")
    ∷ "--cpus"
    ∷ format_cpus show_float p.cpus
    ∷ "--stop-timeout"
    ∷ show stop_grace_seconds
    ∷ "--workdir"
    ∷ workdir
    ∷ []

-- `_hardening_flags`
unfoldable pub hardening_flags : (Float → String) → SandboxPolicy → String → Result (List String)
unfolding isolation_flags user_flags limit_flags
hardening_flags show_float p workdir = do
  user ← user_flags p
  ok (isolation_flags p ++ user ++ limit_flags show_float p workdir)

abbrev is_name_char : ℕ → Bool
is_name_char c = leb b'A' c && leb c b'Z' || leb b'a' c && leb c b'z' || eqb c b'_'

name_rest : String → Bool
name_rest String.[] = true
name_rest (String.◌∷◌ c s) = (is_name_char (code c) || is_digit (code c)) && name_rest s

-- `_ENV_KEY_RE.fullmatch(key)`
unfoldable pub is_env_key : String → Bool
unfolding name_rest
is_env_key String.[] = false
is_env_key (String.◌∷◌ c s) = is_name_char (code c) && name_rest s

-- the variables in the order of `sorted(spec.env)`
sorted : List (String × String) → Dir String
unfolding write lookup
sorted [] = []
sorted ((key, value) ∷ env) = write key value (sorted env)

unfoldable pub env_flags : Dir String → Result (List String)
unfolding is_env_key
env_flags [] = ok []
env_flags ((key, value) ∷ env) =
    if is_env_key key
    then (do rest ← env_flags env; ok ("--env" ∷ (key & ("=" & value)) ∷ rest))
    else raise (
        sandbox_error (
          "invalid environment variable name "
          & (repr key & ": must match [A-Za-z_][A-Za-z0-9_]*")))

-- `_safe_image`
unfoldable pub safe_image : String → Result String
unfolding strip_of after
safe_image image =
    let ref = strip image in
    if ref == "" || is_some (after "-" ref)
    then raise (
        sandbox_error (
          "invalid image ref "
          & (repr image
              & ": must be non-empty and must not start with '-' (argument-injection guard)")))
    else ok ref

-- `build_argv`; `build_command` passes it the policy of the spec
unfoldable pub build_argv :
    (Float → String) → String → SandboxSpec → SandboxPolicy → Result (List String)
unfolding hardening_flags env_flags sorted safe_image
build_argv show_float runtime spec policy = do
  flags ← hardening_flags show_float policy spec.workdir
  env ← env_flags (sorted spec.env)
  image ← safe_image spec.image
  ok (
      (runtime ∷ "run" ∷ flags)
      ++ ("--entrypoint" ∷ spec.executable ∷ env)
      ++ image ∷ spec.arguments)
