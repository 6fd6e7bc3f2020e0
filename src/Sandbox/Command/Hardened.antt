-- ===== src/Sandbox/Command/Hardened.antt =====
-- What a rendered command line holds.
use mathlib.Core.Path.{subst}
use deep_thought.Prelude.{
  String, ◌&◌, ◌≡◌, ◌≢◌, refl, ap, inl, inr, true, Option, none, some, List, [], ◌∷◌, ◌++◌, ◌==◌,
  ◌||◌, arith, eq_iff, Bool-cases, is_some,
}
use deep_thought.Prelude.Text.{after, strip}
use deep_thought.Prelude.Dirs.{Dir}
use deep_thought.Schema.Json.{Float}
use deep_thought.Result.{ok, ◌>>=◌, >>=-eq-ok}
use deep_thought.Sandbox.{SandboxPolicy, SandboxSpec, is_locked}
use deep_thought.Sandbox.Command.{
  before_colon, after_colon, stripped, is_numeric, is_non_root, user_value, user_flags,
  isolation_flags, limit_flags, hardening_flags, is_env_key, sorted, env_flags, safe_image,
  build_argv,
}

-- a numeric uid other than 0, alone or with a numeric gid
pub data NonRoot (user : String) : Type 0 where
  alone : is_non_root user ≡ true → NonRoot user
  paired :
      (uid gid : String)
      → user ≡ (uid & (":" & gid))
      → is_non_root uid ≡ true
      → is_numeric gid ≡ true
      → NonRoot user

-- pairs of `--env` and a variable with a proper name
abbrev pub EnvTokens : List String → Type 0
EnvTokens [] = Unit
EnvTokens (flag ∷ []) = ⊥
EnvTokens (flag ∷ variable ∷ rest) =
    (flag ≡ "--env")
    × ((key : String) × (value : String) × (is_env_key key ≡ true)
        × (variable ≡ (key & ("=" & value))))
    × EnvTokens rest

-- The whole command line: the runtime, every isolation flag, a user that is not root, the limits, an
-- entry point and an environment, then an image that is no option, and the arguments.
pub record IsHardened (show_float : Float → String) (runtime : String) (spec : SandboxSpec)
    (policy : SandboxPolicy) (argv : List String) : Type 0 where
  pub user : String
  pub env : List String
  pub image : String
  pub whole :
      argv
      ≡ (runtime
          ∷ "run"
          ∷ "--rm"
          ∷ "--network=none"
          ∷ "--pull=never"
          ∷ "--read-only"
          ∷ "--cap-drop=ALL"
          ∷ "--security-opt=no-new-privileges"
          ∷ "--user"
          ∷ user
          ∷ limit_flags show_float policy spec.workdir)
        ++ ("--entrypoint" ∷ spec.executable ∷ env)
        ++ image ∷ spec.arguments
  pub non_root : NonRoot user
  pub variables : EnvTokens env
  pub named : image ≢ ""
  pub no_option : after "-" image ≡ none

user_value-NonRoot :
    (user uid : String) (gid : Option String) (value : String)
    → user_value user uid gid ≡ ok value
    → NonRoot value
unfolding user_value
user_value-NonRoot user uid none value h = elim (Bool-cases (is_non_root uid)) [
  | inl y ↦ subst NonRoot {x = uid} (ground (arith, h, y)) (alone y)
  | inr n ↦ absurd (ground (arith, h, n))
]
user_value-NonRoot user uid (some gid) value h = elim (Bool-cases (is_non_root uid)) [
  | inr n ↦ absurd (ground (arith, h, n))
  | inl y ↦ elim (Bool-cases (is_numeric gid)) [
    | inr n ↦ absurd (ground (arith, h, y, n))
    | inl g ↦ paired uid gid (ground (arith, h, y, g)) y g
  ]
]

isolation_flags-is_locked :
    (p : SandboxPolicy)
    → is_locked p ≡ true
    → isolation_flags p
      ≡ "--rm" ∷ "--network=none" ∷ "--pull=never" ∷ "--read-only" ∷ "--cap-drop=ALL"
        ∷ "--security-opt=no-new-privileges" ∷ []
unfolding isolation_flags is_locked
isolation_flags-is_locked p h = ground (
  arith,
  h,
  eq_iff p.network "none",
  ap (λ (n : String). "--network=" & n) {x = p.network} {y = "none"},
)

run_as_non_root : (p : SandboxPolicy) → is_locked p ≡ true → p.run_as_non_root ≡ true
unfolding is_locked
run_as_non_root p h = ground arith

env_flags-EnvTokens :
    (env : Dir String) (tokens : List String) → env_flags env ≡ ok tokens → EnvTokens tokens
unfolding env_flags
env_flags-EnvTokens [] tokens h = subst EnvTokens {x = []} (ground arith) tt
env_flags-EnvTokens ((key, value) ∷ env) tokens h = elim (Bool-cases (is_env_key key)) [
  | inr n ↦ absurd (ground (arith, h, n))
  | inl y ↦
      let kept : (env_flags env >>= λ rest. ok ("--env" ∷ (key & ("=" & value)) ∷ rest))
          ≡ ok tokens =
        ground (arith, h, y) in
      let (rest, found, e) = >>=-eq-ok _ (env_flags env) kept in
      subst EnvTokens {x = "--env" ∷ (key & ("=" & value)) ∷ rest} (ground (arith, e))
        (refl, (key, value, y, refl), env_flags-EnvTokens env rest found)
]

safe_image-is_safe :
    (image ref : String) → safe_image image ≡ ok ref → (ref ≢ "") × (after "-" ref ≡ none)
unfolding safe_image
safe_image-is_safe image ref h =
    elim (Bool-cases (strip image == "" || is_some (after "-" (strip image)))) [
      | inl y ↦ absurd (ground (arith, h, y))
      | inr n ↦
          let e : strip image ≡ ref = ground (arith, h, n) in
          subst (λ r. (r ≢ "") × (after "-" r ≡ none)) e
            (ground (arith, n, eq_iff (strip image) ""), ground (arith, n))
    ]

user_flags-NonRoot :
    (p : SandboxPolicy) (flags : List String)
    → p.run_as_non_root ≡ true
    → user_flags p ≡ ok flags
    → (user : String) × (flags ≡ "--user" ∷ user ∷ []) × NonRoot user
unfolding user_flags
user_flags-NonRoot p flags h e =
    let uid = strip (before_colon p.user) in
    let gid = stripped (after_colon p.user) in
    let (user, found, r) =
      >>=-eq-ok (λ value. ok ("--user" ∷ value ∷ [])) (user_value p.user uid gid) (rw h at e) in
    (user, ground (arith, r), user_value-NonRoot p.user uid gid user found)

pub build_argv-IsHardened :
    (show_float : Float → String) (runtime : String) (spec : SandboxSpec) (policy : SandboxPolicy)
    (argv : List String)
    → is_locked policy ≡ true
    → build_argv show_float runtime spec policy ≡ ok argv
    → IsHardened show_float runtime spec policy argv
unfolding build_argv hardening_flags
build_argv-IsHardened show_float runtime spec policy argv locked h =
    let (flags, f, h1) = >>=-eq-ok _ _ h in
    let (env, v, h2) = >>=-eq-ok _ (env_flags (sorted spec.env)) h1 in
    let (image, i, h3) = >>=-eq-ok _ (safe_image spec.image) h2 in
    let (found, u, h4) = >>=-eq-ok _ (user_flags policy) f in
    let (user, e, n) = user_flags-NonRoot policy found (run_as_non_root policy locked) u in
    record {
      user = user;
      env = env;
      image = image;
      whole = ground (arith, h3, h4, e, isolation_flags-is_locked policy locked);
      non_root = n;
      variables = env_flags-EnvTokens (sorted spec.env) env v;
      named = (safe_image-is_safe spec.image image i).0;
      no_option = (safe_image-is_safe spec.image image i).1;
    }
