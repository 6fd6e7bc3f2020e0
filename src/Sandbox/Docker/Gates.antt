-- ===== src/Sandbox/Docker/Gates.antt =====
-- `run` where its gates are not passed.
use deep_thought.Prelude.{◌≡◌, refl, ap, ◌∙◌, Bool, true, false, ◌&&◌, arith, Bool-cases, inl, inr}
use deep_thought.Result.{Result, ok, raise, is_raised}
use deep_thought.Sandbox.{SandboxSpec, SandboxResult}
use deep_thought.Sandbox.Host.{Docker, M, and_then}
use deep_thought.Sandbox.Runtime.{Backend, is_pinnable}
use deep_thought.Sandbox.Attest.{is_signed, authorize}
use deep_thought.Sandbox.Docker.{run, run_authorized}

-- execution is enabled, the sign-off is for this project and open now, and the runtime is there and
-- can be pinned to the local daemon
abbrev pub is_authorized : Backend → Docker → Bool
is_authorized m d =
    m.config.execution_enabled
    && (is_signed m (m.host.utcnow d.calls)
        && (m.host.which d.calls m.config.runtime && is_pinnable m.config.runtime))

authorize-refused :
    (m : Backend) (d : Docker)
    → is_authorized m d ≡ false
    → ((authorize m d).0 ≡ d) × (is_raised (authorize m d).1 ≡ true)
unfolding authorize
authorize-refused m d h = ground arith

authorize-passed :
    (m : Backend) (d : Docker) → is_authorized m d ≡ true → authorize m d ≡ (d, ok tt)
unfolding authorize
authorize-passed m d h = ground arith

-- where the first part raises, so does the whole, from the same state
and_then-is_raised :
    {A B : Type 0} (f : A → M B) (d : Docker) (r : Result A)
    → is_raised r ≡ true
    → ((and_then f d r).0 ≡ d) × (is_raised (and_then f d r).1 ≡ true)
and_then-is_raised f d (raise e) h = (refl, refl)
and_then-is_raised f d (ok a) h = cc

-- The hard stop: without authorization a run raises, makes no call of the runtime, pages nothing and
-- leaves the state of the sandbox as it was.
pub run_refused :
    (m : Backend) (spec : SandboxSpec) (d : Docker)
    → is_authorized m d ≡ false
    → ((run m spec d).0 ≡ d) × (is_raised (run m spec d).1 ≡ true)
unfolding run
run_refused m spec d h =
    let (same, raised) = authorize-refused m d h in
    let (a, b) =
      and_then-is_raised (λ _. run_authorized m spec) (authorize m d).0 (authorize m d).1 raised in
    (a ∙ same, b)

not_raised : {b : Bool} → b ≡ false → b ≡ true → ⊥
not_raised e h = cc

-- A run that returned was authorized, and went on from the same state.
pub run-eq-ok :
    (m : Backend) (spec : SandboxSpec) (d d' : Docker) (r : SandboxResult)
    → run m spec d ≡ (d', ok r)
    → (is_authorized m d ≡ true) × (run_authorized m spec d ≡ (d', ok r))
unfolding run
run-eq-ok m spec d d' r h = elim (Bool-cases (is_authorized m d)) [
  | inl y ↦ (y, rw (authorize-passed m d y) at h)
  | inr n ↦ absurd (
      not_raised (ap (λ (x : Docker × Result SandboxResult). is_raised x.1) h)
        (run_refused m spec d n).1)
]
