-- ===== src/Sandbox/Seam.antt =====
-- The seam that a session reaches a sandbox through (`Sandbox` of src/deepthought/sandbox/base.py with
-- its context manager, and src/deepthought/sandbox/noop.py). The state of a sandbox holds the store
-- that it pages to.
pub mod Backed
use deep_thought.Prelude.{String, Option, none, some, List, [], ◌∷◌, ◌++◌}
use deep_thought.Result.{Result, ok, raise}
use deep_thought.Store.{Store}
use deep_thought.Sandbox.{SandboxSpec, SandboxResult}
use deep_thought.Sandbox.Host.{Call, Docker}
use deep_thought.Sandbox.Runtime.{Backend}
use deep_thought.Sandbox.Docker.{run, teardown}

-- the outcome of a body, unless the cleanup after it raises too
abbrev unless_raised : {A : Type 0} → Result (Unit {0}) → Result A → Result A
unless_raised (ok _) r = r
unless_raised (raise e) r = raise e

module _ {W A : Type 0} (setup teardown : W → W × Result (Unit {0})) (body : W → W × Result A) where
  -- `teardown` after a body or a setup that came to `r`
  torn_down : W × Result A → W × Result A
  torn_down (w, r) = let (w', t) = teardown w in (w', unless_raised t r)

  entered : W × Result (Unit {0}) → W × Result A
  unfolding torn_down
  entered (w, ok _) = torn_down (body w)
  entered (w, raise e) = torn_down (w, raise e)

  -- `with sandbox: body`, through `__enter__` and `__exit__`
  unfoldable pub with_block : W → W × Result A
  unfolding entered
  with_block w = entered (setup w)

-- A sandbox as a session sees it: the whole `with` block around one `run`. A backend may return no
-- result.
pub record Sandbox : Type 0 where
  pub name : String  -- the name of its class
  pub project : Option String
  pub within : Store → SandboxSpec → Store × Result (Option SandboxResult)

abbrev no_setup : {W : Type 0} → W → W × Result (Unit {0})
no_setup w = (w, ok tt)

abbrev returned : {A : Type 0} → Result A → Result (Option A)
returned (ok a) = ok (some a)
returned (raise e) = raise e

-- `DockerSandbox`, with the calls that its host has seen before
unfoldable pub docker_sandbox : Backend → List Call → Sandbox
unfolding with_block run teardown
docker_sandbox m history = record {
  name = "DockerSandbox";
  project = m.config.project;
  within = λ s spec.
      let start : Docker = record { store = s; active_container = none; calls = history } in
      let (d, r) = with_block no_setup (teardown m) (run m spec) start in (d.store, returned r);
}

-- `NoopSandbox`: the canned result, and the specs it was handed
pub record Noop : Type 0 where
  pub result : SandboxResult
  pub recorded : List SandboxSpec

unfoldable pub noop_run : SandboxSpec → Noop → Noop × Result SandboxResult
noop_run spec n = (record n { recorded = n.recorded ++ spec ∷ [] }, ok n.result)

abbrev no_teardown : Noop → Noop × Result (Unit {0})
no_teardown n = (n, ok tt)

unfoldable pub noop_sandbox : Noop → Sandbox
unfolding with_block noop_run
noop_sandbox n = record {
  name = "NoopSandbox";
  project = none;
  within =
      λ s spec. let (_, r) = with_block no_setup no_teardown (noop_run spec) n in (s, returned r);
}
