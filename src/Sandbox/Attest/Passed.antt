-- ===== src/Sandbox/Attest/Passed.antt =====
-- What holds after the checks that come before a launch.
use mathlib.Core.Path.{subst}
use deep_thought.Prelude.{
  String, ◌≡◌, ◌≢◌, refl, ap, ◌∙◌, true, List, [], ◌∷◌, ◌++◌, ◌==◌, eq_iff, arith, Bool-cases, inl,
  inr,
}
use deep_thought.Prelude.Text.{strip}
use deep_thought.Prelude.Ints.{ℤ, is_nat}
use deep_thought.Result.{ok}
use deep_thought.Sandbox.{SandboxSpec}
use deep_thought.Sandbox.Command.{safe_image}
use deep_thought.Sandbox.Host.{Call, Executed, failed, exited, Docker, ◌>>=◌, pure}
use deep_thought.Sandbox.Host.Inversion.{>>=-eq-ok, guard-eq-ok, lift-eq-ok}
use deep_thought.Sandbox.Runtime.{Backend, prefix, execute}
use deep_thought.Sandbox.Attest.{
  reachable, preflight_runtime, inspected, image_id, same_digest, attest, check_request,
  is_single_input,
}

-- a call that the runtime answered with success, and the output
pub record Answered (m : Backend) (argv : List String) (out : String) : Type 0 where
  pub calls : List Call
  pub code : ℤ
  pub err : String
  pub answer : m.host.execute calls argv ≡ exited code out err
  pub success : is_nat 0 code ≡ true

pub preflight_runtime-store :
    (m : Backend) (d t : Docker) → preflight_runtime m d ≡ (t, ok tt) → t.store ≡ d.store
unfolding preflight_runtime reachable
preflight_runtime-store m d t h = reached (m.host.execute d.calls (prefix m ++ "version" ∷ [])) h
  where
    reached :
        (x : Executed)
        → reachable m x
            (record d { calls = d.calls ++ Call.executed (prefix m ++ "version" ∷ []) ∷ [] })
          ≡ (t, ok tt)
        → t.store ≡ d.store
    reached (failed why) e = absurd (ground (arith, e))
    reached (exited code out err) e = ground (arith, e)

inspected-eq-ok :
    (m : Backend) (image : String) (x : Executed) (d t : Docker) (id : String)
    → inspected m image x d ≡ (t, ok id)
    → (code : ℤ) × (out : String) × (err : String) × (x ≡ exited code out err)
      × (is_nat 0 code ≡ true)
      × (strip out ≡ id)
      × (t ≡ d)
unfolding inspected
inspected-eq-ok m image (failed why) d t id h = absurd (ground (arith, h))
inspected-eq-ok m image (exited code out err) d t id h =
    let (zero_code, k) = guard-eq-ok (is_nat 0 code) _ (pure (strip out)) d h in
    (code, out, err, refl, zero_code, ground (arith, k), ground (arith, k))

-- the daemon's answer to the inspection of an image
pub record Inspected (m : Backend) (image id : String) : Type 0 where
  pub ref : String
  pub out : String
  pub safe : safe_image image ≡ ok ref
  pub inspection :
      Answered m (prefix m ++ "image" ∷ "inspect" ∷ "--format" ∷ "{{.Id}}" ∷ ref ∷ []) out
  pub printed : strip out ≡ id

image_id-eq-ok :
    (m : Backend) (image : String) (d t : Docker) (id : String)
    → image_id m image d ≡ (t, ok id)
    → Inspected m image id × (t.store ≡ d.store)
unfolding image_id
image_id-eq-ok m image d t id h =
    let argv =
      λ (ref : String). prefix m ++ "image" ∷ "inspect" ∷ "--format" ∷ "{{.Id}}" ∷ ref ∷ [] in
    let (ref, safe, h1) =
      lift-eq-ok (safe_image image) (λ ref. execute m (argv ref) >>= inspected m image) d h in
    let answer = m.host.execute d.calls (argv ref) in
    let (code, out, err, e, success, printed, kept) = inspected-eq-ok m image answer _ t id h1 in
    (
      record {
        ref = ref;
        out = out;
        safe = safe;
        inspection = record {
          calls = d.calls;
          code = code;
          err = err;
          answer = e;
          success = success;
        };
        printed = printed;
      },
      ap (λ (x : Docker). x.store) kept,
    )

-- What an attested request is: the same request, with the image named by the digest that the local
-- daemon reports for it.
pub record Attested (m : Backend) (spec pinned : SandboxSpec) : Type 0 where
  pub inspected : Inspected m spec.image spec.image_digest
  pub given : spec.image_digest ≢ ""
  pub same : pinned ≡ record spec { image = spec.image_digest }

same_digest-eq-ok :
    (m : Backend) (spec pinned : SandboxSpec) (actual : String) (d t : Docker)
    → same_digest m spec actual d ≡ (t, ok pinned)
    → (actual ≡ spec.image_digest) × (pinned ≡ record spec { image = actual }) × (t ≡ d)
unfolding same_digest
same_digest-eq-ok m spec pinned actual d t h = ground (arith, h, eq_iff actual spec.image_digest)

pub attest-eq-ok :
    (m : Backend) (spec pinned : SandboxSpec) (d t : Docker)
    → attest m spec d ≡ (t, ok pinned)
    → Attested m spec pinned × (t.store ≡ d.store)
unfolding attest
attest-eq-ok m spec pinned d t h = elim (Bool-cases (spec.image_digest == "")) [
  | inl y ↦ absurd (ground (arith, h, y))
  | inr n ↦
      let (u, actual, found, h2) =
        >>=-eq-ok (image_id m spec.image) (same_digest m spec) d (rw n at h) in
      let (inspected, kept) = image_id-eq-ok m spec.image d u actual found in
      let (is_digest, same, still) = same_digest-eq-ok m spec pinned actual u t h2 in
      (
        record {
          inspected = subst (Inspected m spec.image) is_digest inspected;
          given = ground (arith, n, eq_iff spec.image_digest "");
          same = same ∙ ap (λ (i : String). record spec { image = i }) is_digest;
        },
        ap (λ (x : Docker). x.store) still ∙ kept,
      )
]

pub check_request-eq-ok :
    (m : Backend) (spec : SandboxSpec) (d t : Docker)
    → check_request m spec d ≡ (t, ok tt)
    → (is_single_input spec ≡ true) × (t ≡ d)
unfolding check_request
check_request-eq-ok m spec d t h = ground (arith, h)
