-- ===== src/Sandbox/Attest/Input.antt =====
-- What holds after the baked input was verified.
use deep_thought.Prelude.{
  String, ◌≡◌, refl, sym, ap, ◌∙◌, Bool, true, false, Option, none, some, List, [], ◌∷◌, ◌++◌,
  eq_iff, arith,
}
use deep_thought.Result.{Result, ok}
use deep_thought.Store.{Store}
use deep_thought.Store.Detail.{read_detail}
use deep_thought.Sandbox.{SandboxSpec}
use deep_thought.Sandbox.Command.{safe_image, hardening_flags}
use deep_thought.Sandbox.Host.{Docker, ◌>>=◌, lift}
use deep_thought.Sandbox.Host.Inversion.{>>=-eq-ok, lift-eq-ok}
use deep_thought.Sandbox.Runtime.{Backend, Captured, prefix, run_id, stream_capture, clear_if}
use deep_thought.Sandbox.Runtime.Output.{OutputOf, stream_capture-eq-ok}
use deep_thought.Sandbox.Attest.{bound, stored_text, read_baked, verify_baked_input, is_zero}

bound-eq-ok :
    (m : Backend) (spec : SandboxSpec) (stored name : String) (c : Captured) (d t : Docker)
    → bound m spec stored name c d ≡ (t, ok tt)
    → (c.stdout ≡ stored) × (is_zero c.returncode ≡ true) × (t ≡ d)
unfolding bound
bound-eq-ok m spec stored name c d t h = ground (arith, h, eq_iff c.stdout stored)

-- The baked input was read, in a container as isolated as the run's own, and is the stored repro.
pub record Bound (m : Backend) (spec : SandboxSpec) (s : Store) : Type 0 where
  pub stored : String
  pub flags : List String
  pub image : String
  pub name : String
  pub captured : Captured
  pub found : read_detail s spec.repro_ref ≡ some stored
  pub isolated : hardening_flags m.lib.show_float spec.policy spec.workdir ≡ ok flags
  pub safe : safe_image spec.image ≡ ok image
  pub output :
      OutputOf m
        (prefix m
          ++ "run"
            ∷ "--name"
            ∷ name
            ∷ (flags ++ "--entrypoint" ∷ "/bin/cat" ∷ image ∷ "--" ∷ spec.input_path ∷ []))
        captured
  pub complete : is_zero captured.returncode ≡ true
  pub identical : captured.stdout ≡ stored

cleared-store : (m : Backend) (b : Bool) (d : Docker) → (clear_if m b d).0.store ≡ d.store
cleared-store m true d = refl
cleared-store m false d = refl

read_baked-eq-ok :
    (m : Backend) (spec : SandboxSpec) (stored : String) (rest : List String) (name : String)
    (d t : Docker)
    → read_baked m spec stored rest name d ≡ (t, ok tt)
    → (c : Captured) × OutputOf m (prefix m ++ "run" ∷ "--name" ∷ name ∷ rest) c
      × (c.stdout ≡ stored)
      × (is_zero c.returncode ≡ true)
      × (t.store ≡ d.store)
unfolding read_baked
read_baked-eq-ok m spec stored rest name d t h =
    let argv = prefix m ++ "run" ∷ "--name" ∷ name ∷ rest in
    let d1 = record d { active_container = some name } in
    let (u, c, read, h1) =
      >>=-eq-ok (stream_capture m argv name)
        (λ c. clear_if m c.container_gone >>= λ _. bound m spec stored name c) d1 h in
    let (v, _, cleared, h2) =
      >>=-eq-ok (clear_if m c.container_gone) (λ _. bound m spec stored name c) u h1 in
    let (output, kept) = stream_capture-eq-ok m argv name d1 u c read in
    let (same, complete, still) = bound-eq-ok m spec stored name c v t h2 in
    (
      c,
      output,
      same,
      complete,
      ap (λ (x : Docker). x.store) still
          ∙ ap (λ (x : Docker × Result (Unit {0})). x.0.store) (sym cleared)
          ∙ cleared-store m c.container_gone u
          ∙ kept,
    )

stored_text-eq-ok :
    (m : Backend) (spec : SandboxSpec) (o : Option String) (d t : Docker) (stored : String)
    → stored_text m spec o d ≡ (t, ok stored)
    → (o ≡ some stored) × (t ≡ d)
unfolding stored_text
stored_text-eq-ok m spec none d t stored h = absurd (ground (arith, h))
stored_text-eq-ok m spec (some text) d t stored h = (ground (arith, h), ground (arith, h))

pub verify_baked_input-eq-ok :
    (m : Backend) (spec : SandboxSpec) (d t : Docker)
    → verify_baked_input m spec d ≡ (t, ok tt)
    → Bound m spec d.store × (t.store ≡ d.store)
unfolding verify_baked_input run_id
verify_baked_input-eq-ok m spec d t h =
    let rest = λ (flags : List String) (image : String).
      flags ++ "--entrypoint" ∷ "/bin/cat" ∷ image ∷ "--" ∷ spec.input_path ∷ [] in
    let named = λ (stored : String) (flags : List String) (image : String).
      run_id m (prefix m ++ "run" ∷ rest flags image)
      >>= read_baked m spec stored (rest flags image) in
    let lifted = λ (stored : String) (flags : List String).
      lift (safe_image spec.image) >>= named stored flags in
    let (u, stored, e, h1) =
      >>=-eq-ok (stored_text m spec (read_detail d.store spec.repro_ref))
        (λ stored.
          lift (hardening_flags m.lib.show_float spec.policy spec.workdir) >>= lifted stored)
        d h in
    let (found, kept) = stored_text-eq-ok m spec _ d u stored e in
    let (flags, isolated, h2) =
      lift-eq-ok (hardening_flags m.lib.show_float spec.policy spec.workdir) (lifted stored) u h1 in
    let (image, safe, h3) = lift-eq-ok (safe_image spec.image) (named stored flags) u h2 in
    let (v, name, run_name, h4) =
      >>=-eq-ok (run_id m (prefix m ++ "run" ∷ rest flags image))
        (read_baked m spec stored (rest flags image)) u h3 in
    let (c, output, same, complete, still) =
      read_baked-eq-ok m spec stored (rest flags image) name v t h4 in
    (
      record {
        stored = stored;
        flags = flags;
        image = image;
        name = name;
        captured = c;
        found = found;
        isolated = isolated;
        safe = safe;
        output = output;
        complete = complete;
        identical = same;
      },
      still
          ∙ ap (λ (x : Docker × Result String). x.0.store) (sym run_name)
          ∙ ap (λ (x : Docker). x.store) kept,
    )
