-- ===== src/Sandbox/Host.antt =====
-- The machine that a container runs on, as src/deepthought/sandbox/docker.py sees it: its processes,
-- its clocks and the Python library. An answer may depend on every call made before. `M` is the state
-- of a `DockerSandbox` with the exceptions of its methods.
pub mod Inversion
pub mod Findings
use deep_thought.Prelude.{ℕ, String, Bool, true, false, Option, List, [], ◌∷◌, ◌++◌}
use deep_thought.Prelude.Ints.{ℤ}
use deep_thought.Schema.Json.{Float}
use deep_thought.Result.{Error, Result, ok, raise}
use deep_thought.Sandbox.{CrashReport}
use deep_thought.Store.{Store}

abbrev pub Bytes : Type 0
Bytes = List ℕ

-- a process that was run, or that the sandbox launched to read from
pub data Call : Type 0 where
  executed : List String → Call
  launched : List String → Call

-- `subprocess.run`: an `OSError` or a `SubprocessError`, or the exit code and the output
pub data Executed : Type 0 where
  failed : String → Executed
  exited : ℤ → String → String → Executed

-- one answer of `select`: nothing before the deadline, or the chunks read, those of `stdout` marked
-- true; an empty chunk is the end of its stream
pub data Event : Type 0 where
  quiet : Event
  ready : List (Bool × Bytes) → Event

-- a launched client: what it writes up to the deadline, whether it exits by then, and its code
pub record Process : Type 0 where
  pub events : List Event
  pub exits : Bool
  pub returncode : Option ℤ

-- `Popen`, and an `OSError` at the launch or while reading
pub data Launched : Type 0 where
  not_started : String → Launched
  interrupted : String → Process → Launched
  started : Process → Launched

pub record Host : Type 0 where
  pub which : List Call → String → Bool
  pub execute : List Call → List String → Executed
  pub launch : List Call → List String → Launched
  pub utcnow : List Call → ℕ
  pub nonce : List Call → String
  pub wall : List Call → Float  -- seconds since the last launch

-- the library's functions on texts: `is_wide` says which characters beyond ASCII are alphanumeric, and
-- `wide_digit` which digit one of them is
pub record Library : Type 0 where
  pub decode : Bytes → String
  pub sha256 : String → String
  pub show_float : Float → String
  pub fromisoformat : String → Option (Option ℕ)
  pub is_wide : ℕ → Bool
  pub wide_digit : ℕ → Option ℕ

-- the state: the store that output is paged to, the container believed to run, the calls so far
pub record Docker : Type 0 where
  pub store : Store
  pub active_container : Option String
  pub calls : List Call

abbrev pub M : Type 0 → Type 0
M A = Docker → Docker × Result A

abbrev pub and_then : {A B : Type 0} → (A → M B) → Docker → Result A → Docker × Result B
and_then f d (ok a) = f a d
and_then f d (raise e) = (d, raise e)

infixl 5 ◌>>◌ ◌>>=◌
abbrev pub ◌>>=◌ : {B A : Type 0} → M A → (A → M B) → M B
(first >>= next) d = let (d', r) = first d in and_then next d' r

-- a step that is done for its effect
abbrev pub ◌>>◌ : {A : Type 0} → M (Unit {0}) → M A → M A
step >> rest = step >>= λ done. rest

abbrev pub pure : {A : Type 0} → A → M A
pure a d = (d, ok a)

abbrev pub throw : {A : Type 0} → Error → M A
throw e d = (d, raise e)

abbrev pub lift : {A : Type 0} → Result A → M A
lift r d = (d, r)

abbrev pub get : M Docker
get d = (d, ok d)

-- `if not test: raise e`
abbrev pub guard : Bool → Error → M (Unit {0})
guard true e d = (d, ok tt)
guard false e d = (d, raise e)

abbrev pub set_active : Option String → M (Unit {0})
set_active name d = (record d { active_container = name }, ok tt)

-- a call, which stays in the history
abbrev pub record_call : Call → M (Unit {0})
record_call c d = (record d { calls = d.calls ++ c ∷ [] }, ok tt)
