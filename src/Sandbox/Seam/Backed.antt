-- ===== src/Sandbox/Seam/Backed.antt =====
-- What the container backend does behind the seam.
use deep_thought.Prelude.{◌≡◌, ◌≢◌, refl, ap, ◌∙◌, Bool, true, false, Option, none, some, List}
use deep_thought.Result.{Result, ok, raise}
use deep_thought.Store.{Store}
use deep_thought.Sandbox.{SandboxSpec, SandboxResult, is_locked}
use deep_thought.Sandbox.Host.{Call, Docker}
use deep_thought.Sandbox.Runtime.{Backend}
use deep_thought.Sandbox.Docker.{run, teardown}
use deep_thought.Sandbox.Docker.Evidence.{Evidence, run-Evidence}
use deep_thought.Sandbox.Docker.Findings.{run-Leaves, teardown-Leaves}
use deep_thought.Sandbox.Seam.{
  docker_sandbox, with_block, entered, torn_down, unless_raised, returned,
}

-- whether the answer of a sandbox is a reproduction
abbrev pub reproduces : Result (Option SandboxResult) → Bool
reproduces (ok (some r)) = r.reproduced
reproduces _ = false

-- the state that a `with` block over the backend starts in
abbrev pub start : Store → List Call → Docker
start s history = record { store = s; active_container = none; calls = history }

pub docker_sandbox-findings :
    (m : Backend) (history : List Call) (s : Store) (spec : SandboxSpec)
    → ((docker_sandbox m history).within s spec).0.findings ≡ s.findings
unfolding docker_sandbox with_block entered torn_down
docker_sandbox-findings m history s spec =
    teardown-Leaves m (run m spec (start s history)).0 ∙ run-Leaves m spec (start s history)

not_so : false ≢ true
not_so h = cc

-- a reproduction that came through the `with` block is one of `run`
reproduces-unless_raised :
    (t : Result (Unit {0})) (x : Result SandboxResult)
    → reproduces (returned (unless_raised t x)) ≡ true
    → (r : SandboxResult) × (x ≡ ok r × r.reproduced ≡ true)
reproduces-unless_raised (ok _) (ok r) h = (r, (refl, h))
reproduces-unless_raised (ok _) (raise e) h = absurd (not_so h)
reproduces-unless_raised (raise e) x h = absurd (not_so h)

pub docker_sandbox-Evidence :
    (m : Backend) (history : List Call) (s : Store) (spec : SandboxSpec)
    → is_locked spec.policy ≡ true
    → reproduces ((docker_sandbox m history).within s spec).1 ≡ true
    → Evidence m spec (start s history)
unfolding docker_sandbox with_block entered torn_down
docker_sandbox-Evidence m history s spec locked h =
    let d = start s history in
    let t = run m spec d in
    let (r, (same, reproduced)) = reproduces-unless_raised (teardown m t.0).1 t.1 h in
    run-Evidence m spec d t.0 r locked (ap (λ (x : Result SandboxResult). (t.0, x)) same) reproduced
