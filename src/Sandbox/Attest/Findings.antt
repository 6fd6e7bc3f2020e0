-- ===== src/Sandbox/Attest/Findings.antt =====
-- What comes before a launch, and the findings of the store.
use deep_thought.Prelude.{String, refl, Option, none, some, List, [], ◌∷◌, ◌++◌, arith, if_ind}
use deep_thought.Store.Detail.{read_detail}
use deep_thought.Sandbox.{SandboxSpec}
use deep_thought.Sandbox.Command.{hardening_flags, safe_image}
use deep_thought.Sandbox.Host.{Docker, Executed, failed, exited, ◌>>=◌, lift, get, set_active}
use deep_thought.Sandbox.Host.Findings.{Leaves, >>=-Leaves}
use deep_thought.Sandbox.Runtime.{
  Backend, Captured, prefix, execute, run_id, stream_capture, clear_if,
}
use deep_thought.Sandbox.Runtime.Findings.{stream_capture-Leaves, clear_if-Leaves}
use deep_thought.Sandbox.Attest.{
  reachable, preflight_runtime, inspected, image_id, bound, stored_text, read_baked,
  verify_baked_input, authorize, same_digest, attest, check_request,
}

module _ (m : Backend) where
  reachable-Leaves : (e : Executed) → Leaves (reachable m e)
  unfolding reachable
  reachable-Leaves (failed why) d = refl
  reachable-Leaves (exited code out err) d = ground arith

  pub preflight_runtime-Leaves : Leaves (preflight_runtime m)
  unfolding preflight_runtime
  preflight_runtime-Leaves =
      >>=-Leaves (execute m (prefix m ++ "version" ∷ [])) (reachable m) (λ d. refl) reachable-Leaves

  inspected-Leaves : (image : String) (e : Executed) → Leaves (inspected m image e)
  unfolding inspected
  inspected-Leaves image (failed why) d = refl
  inspected-Leaves image (exited code out err) d = ground arith

  image_id-Leaves : (image : String) → Leaves (image_id m image)
  unfolding image_id
  image_id-Leaves image =
      let asked = λ (ref : String).
        execute m (prefix m ++ "image" ∷ "inspect" ∷ "--format" ∷ "{{.Id}}" ∷ ref ∷ []) in
      >>=-Leaves (lift (safe_image image)) (λ ref. asked ref >>= inspected m image) (λ d. refl)
        (λ ref. >>=-Leaves (asked ref) (inspected m image) (λ d. refl) (inspected-Leaves image))

  same_digest-Leaves : (spec : SandboxSpec) (actual : String) → Leaves (same_digest m spec actual)
  unfolding same_digest
  same_digest-Leaves spec actual d = ground arith

  pub attest-Leaves : (spec : SandboxSpec) → Leaves (attest m spec)
  unfolding attest
  attest-Leaves spec =
      if_ind Leaves _ _ _ (λ _ d. refl)
        (λ _.
          >>=-Leaves (image_id m spec.image) (same_digest m spec) (image_id-Leaves spec.image)
            (same_digest-Leaves spec))

  pub check_request-Leaves : (spec : SandboxSpec) → Leaves (check_request m spec)
  unfolding check_request
  check_request-Leaves spec d = ground arith

  pub authorize-Leaves : Leaves (authorize m)
  unfolding authorize
  authorize-Leaves d = ground arith

  bound-Leaves :
      (spec : SandboxSpec) (stored name : String) (c : Captured)
      → Leaves (bound m spec stored name c)
  unfolding bound
  bound-Leaves spec stored name c d = ground arith

  stored_text-Leaves : (spec : SandboxSpec) (o : Option String) → Leaves (stored_text m spec o)
  unfolding stored_text
  stored_text-Leaves spec none d = refl
  stored_text-Leaves spec (some text) d = refl

  read_baked-Leaves :
      (spec : SandboxSpec) (stored : String) (rest : List String) (name : String)
      → Leaves (read_baked m spec stored rest name)
  unfolding read_baked
  read_baked-Leaves spec stored rest name =
      let argv = prefix m ++ "run" ∷ "--name" ∷ name ∷ rest in
      let after =
        λ (c : Captured). clear_if m c.container_gone >>= λ _. bound m spec stored name c in
      >>=-Leaves (set_active (some name)) (λ _. stream_capture m argv name >>= after) (λ d. refl)
        (λ _.
          >>=-Leaves (stream_capture m argv name) after (stream_capture-Leaves m argv name) (λ c.
            >>=-Leaves (clear_if m c.container_gone) (λ _. bound m spec stored name c)
              (clear_if-Leaves m c.container_gone) (λ _. bound-Leaves spec stored name c)))

  pub verify_baked_input-Leaves : (spec : SandboxSpec) → Leaves (verify_baked_input m spec)
  unfolding verify_baked_input run_id
  verify_baked_input-Leaves spec =
      let rest = λ (flags : List String) (image : String).
        flags ++ "--entrypoint" ∷ "/bin/cat" ∷ image ∷ "--" ∷ spec.input_path ∷ [] in
      let read = λ (stored : String) (l : List String).
        run_id m (prefix m ++ "run" ∷ l) >>= λ name. read_baked m spec stored l name in
      let imaged = λ (stored : String) (flags : List String).
        lift (safe_image spec.image) >>= λ image. read stored (rest flags image) in
      let flagged = λ (stored : String).
        lift (hardening_flags m.lib.show_float spec.policy spec.workdir) >>= imaged stored in
      let got =
        λ (d : Docker). stored_text m spec (read_detail d.store spec.repro_ref) >>= flagged in
      >>=-Leaves get got (λ d. refl)
        (λ d.
          >>=-Leaves (stored_text m spec (read_detail d.store spec.repro_ref)) flagged
            (stored_text-Leaves spec _)
            (λ stored.
              >>=-Leaves (lift (hardening_flags m.lib.show_float spec.policy spec.workdir))
                (imaged stored) (λ d. refl)
                (λ flags.
                  >>=-Leaves (lift (safe_image spec.image))
                    (λ image. read stored (rest flags image)) (λ d. refl)
                    (λ image.
                      >>=-Leaves (run_id m (prefix m ++ "run" ∷ rest flags image))
                        (λ name. read_baked m spec stored (rest flags image) name) (λ d. refl)
                        (λ name. read_baked-Leaves spec stored (rest flags image) name)))))
