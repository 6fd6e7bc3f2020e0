-- ===== src/Sandbox/Docker/Evidence.antt =====
-- What stands behind a reproduction that `run` reports.
use mathlib.Core.Path.{subst}
use deep_thought.Prelude.{
  String, ◌&◌, ◌≡◌, refl, sym, ap, ◌∙◌, true, false, not, Option, none, some, List, ◌∷◌, ◌++◌,
  arith, is_some, Bool-cases, inl, inr,
}
use deep_thought.Prelude.Ints.{ℤ, is_nat}
use deep_thought.Schema.Json.{Float}
use deep_thought.Result.{ok}
use deep_thought.Sandbox.Asan.{parse_asan}
use deep_thought.Sandbox.{SandboxSpec, SandboxResult, CrashReport, is_locked}
use deep_thought.Sandbox.Command.Hardened.{IsHardened, build_argv-IsHardened}
use deep_thought.Sandbox.Command.{build_argv}
use deep_thought.Sandbox.Host.{Docker, ◌>>=◌, ◌>>◌, pure, lift, get, guard}
use deep_thought.Sandbox.Host.Inversion.{>>=-eq-ok, guard-eq-ok, lift-eq-ok}
use deep_thought.Sandbox.Runtime.{Backend, Captured, prefix, run_id, stream_capture, page, clear_if}
use deep_thought.Sandbox.Runtime.Output.{OutputOf, stream_capture-eq-ok}
use deep_thought.Sandbox.Attest.{
  preflight_runtime, attest, check_request, verify_baked_input, is_single_input,
}
use deep_thought.Sandbox.Attest.Passed.{
  Attested, preflight_runtime-store, attest-eq-ok, check_request-eq-ok,
}
use deep_thought.Sandbox.Attest.Input.{Bound, verify_baked_input-eq-ok}
use deep_thought.Sandbox.Docker.{
  drop_two, launch_named, launch, with_report, reported, crash_of, ended, ended_with, ran_out,
  judge, run_authorized, run, sanitizer_crash_exit, is_runner_infra_exit, is_runtime_error_exit,
}
use deep_thought.Sandbox.Docker.Gates.{is_authorized, run-eq-ok}

launch-eq-ok :
    (m : Backend) (base : List String) (d t : Docker) (l : String × Captured)
    → launch m base d ≡ (t, ok l)
    → OutputOf m (prefix m ++ "run" ∷ "--name" ∷ l.0 ∷ drop_two base) l.1
unfolding launch launch_named
launch-eq-ok m base d t l h =
    let (u, name, named, h1) = >>=-eq-ok (run_id m base) (launch_named m base) d h in
    let argv = prefix m ++ "run" ∷ "--name" ∷ name ∷ drop_two base in
    let d1 = record u { active_container = some name } in
    let (v, c, captured, h2) =
      >>=-eq-ok (stream_capture m argv name)
        (λ c. clear_if m c.container_gone >>= λ _. pure (name, c)) d1 h1 in
    let (w, _, cleared, h3) = >>=-eq-ok (clear_if m c.container_gone) (λ _. pure (name, c)) v h2 in
    let e : ◌≡◌ {A = String × Captured} (name, c) l = ground (arith, h3) in
    subst
      (λ (x : String × Captured).
        OutputOf m (prefix m ++ "run" ∷ "--name" ∷ x.0 ∷ drop_two base) x.1)
      e (stream_capture-eq-ok m argv name d1 v c captured).0

reported-eq-ok :
    (m : Backend) (name : String) (wall : Float) (c : Captured) (code : ℤ)
    (found : Option CrashReport) (d t : Docker) (r : SandboxResult)
    → reported m name wall c code found d ≡ (t, ok r)
    → r.reproduced ≡ is_some found
unfolding reported with_report page
reported-eq-ok m name wall c code none d t r h = ground (arith, h)
reported-eq-ok m name wall c code (some crash) d t r h = ground (arith, h)

-- what is known of a run that reproduced: no limit was met, and the wrapper told of a signal
pub record Crashed (m : Backend) (c : Captured) : Type 0 where
  pub in_time : c.timed_out ≡ false
  pub in_cap : c.overflowed ≡ false
  pub code : ℤ
  pub crash : CrashReport
  pub exit : c.returncode ≡ some code
  pub by_signal : is_nat sanitizer_crash_exit code ≡ true
  pub report :
      parse_asan m.lib.sha256 m.lib.is_wide m.lib.wide_digit (c.stdout & ("\n" & c.stderr))
      ≡ some crash

some_of : {A : Type 0} (o : Option A) → is_some o ≡ true → (a : A) × (o ≡ some a)
some_of none h = cc
some_of (some a) h = (a, refl)

crash_of-eq-some :
    (m : Backend) (c : Captured) (code : ℤ)
    → is_some (crash_of m c code) ≡ true
    → (crash : CrashReport) × (is_nat sanitizer_crash_exit code ≡ true)
      × (parse_asan m.lib.sha256 m.lib.is_wide m.lib.wide_digit (c.stdout & ("\n" & c.stderr))
          ≡ some crash)
crash_of-eq-some m c code h = elim (Bool-cases (is_nat sanitizer_crash_exit code)) [
  | inl y ↦
      let (crash, e) =
        some_of
          (parse_asan m.lib.sha256 m.lib.is_wide m.lib.wide_digit (c.stdout & ("\n" & c.stderr)))
          (rw y at h) in
      (crash, y, e)
  | inr n ↦ absurd (ground (arith, h, n))
]

ran_out-eq-ok :
    (m : Backend) (name : String) (wall : Float) (c : Captured) (d t : Docker) (r : SandboxResult)
    → ran_out m name wall c d ≡ (t, ok r)
    → r.reproduced ≡ false
unfolding ran_out page
ran_out-eq-ok m name wall c d t r h = ground (arith, h)

ended_with-eq-ok :
    (m : Backend) (name : String) (wall : Float) (c : Captured) (o : Option ℤ) (d t : Docker)
    (r : SandboxResult)
    → ended_with m name wall c o d ≡ (t, ok r)
    → (code : ℤ) × (o ≡ some code) × (r.reproduced ≡ is_some (crash_of m c code))
unfolding ended_with ended
ended_with-eq-ok m name wall c none d t r h = absurd (ground (arith, h))
ended_with-eq-ok m name wall c (some code) d t r h =
    let found = crash_of m c code in
    let rest = reported m name wall c code found in
    let (no_infra, h1) =
      guard-eq-ok (not (is_runner_infra_exit code)) _
        (guard (not (is_runtime_error_exit code)) _ >> rest) d h in
    let (no_runtime, h2) = guard-eq-ok (not (is_runtime_error_exit code)) _ rest d h1 in
    (code, refl, reported-eq-ok m name wall c code found d t r h2)

judge-Crashed :
    (m : Backend) (name : String) (wall : Float) (c : Captured) (d t : Docker) (r : SandboxResult)
    → judge m name wall c d ≡ (t, ok r)
    → r.reproduced ≡ true
    → Crashed m c
unfolding judge
judge-Crashed m name wall c d t r h reproduced = elim (Bool-cases c.timed_out) [
  | inl y ↦ absurd (ground (arith, reproduced, ran_out-eq-ok m name wall c d t r (rw y at h)))
  | inr n ↦
      let (in_cap, h1) =
        guard-eq-ok (not c.overflowed) _ (ended_with m name wall c c.returncode) d (rw n at h) in
      let (code, exit, e) = ended_with-eq-ok m name wall c c.returncode d t r h1 in
      let (crash, by_signal, report) = crash_of-eq-some m c code (sym e ∙ reproduced) in
      record {
        in_time = n;
        in_cap = ground (arith, in_cap);
        code = code;
        crash = crash;
        exit = exit;
        by_signal = by_signal;
        report = report;
      }
]

-- All that a reproduction rests on: the gates were open; the image was named by the digest that the
-- daemon reported; the command was the trusted wrapper on the one bound input, and that input read
-- from the image is the stored repro; the container ran under the whole isolation; its output was
-- read in time and under the cap; and the wrapper's own exit code told of a crash that the report shows.
pub record Evidence (m : Backend) (spec : SandboxSpec) (d : Docker) : Type 0 where
  pub authorized : is_authorized m d ≡ true
  pub pinned : SandboxSpec
  pub attested : Attested m spec pinned
  pub single : is_single_input pinned ≡ true
  pub bound : Bound m pinned d.store
  pub base : List String
  pub hardened : IsHardened m.lib.show_float m.config.runtime pinned pinned.policy base
  pub name : String
  pub captured : Captured
  pub output : OutputOf m (prefix m ++ "run" ∷ "--name" ∷ name ∷ drop_two base) captured
  pub crashed : Crashed m captured

run_authorized-Evidence :
    (m : Backend) (spec : SandboxSpec) (d t : Docker) (r : SandboxResult)
    → is_authorized m d ≡ true
    → is_locked spec.policy ≡ true
    → run_authorized m spec d ≡ (t, ok r)
    → r.reproduced ≡ true
    → Evidence m spec d
unfolding run_authorized
run_authorized-Evidence m spec d t r authorized locked h reproduced =
    let judged = λ (l : String × Captured). get >>= λ x. judge m l.0 (m.host.wall x.calls) l.1 in
    let verified = λ (p : SandboxSpec) (base : List String).
      verify_baked_input m p >>= λ _. launch m base >>= judged in
    let rendered = λ (p : SandboxSpec). build_argv m.lib.show_float m.config.runtime p p.policy in
    let checked =
      λ (p : SandboxSpec). check_request m p >>= λ _. lift (rendered p) >>= verified p in
    let (d1, _, probe, h1) = >>=-eq-ok (preflight_runtime m) (λ _. attest m spec >>= checked) d h in
    let (d2, pinned, attestation, h2) = >>=-eq-ok (attest m spec) checked d1 h1 in
    let (d3, _, request, h3) =
      >>=-eq-ok (check_request m pinned) (λ _. lift (rendered pinned) >>= verified pinned) d2 h2 in
    let (base, render, h4) = lift-eq-ok (rendered pinned) (verified pinned) d3 h3 in
    let (d4, _, reading, h5) =
      >>=-eq-ok (verify_baked_input m pinned) (λ _. launch m base >>= judged) d3 h4 in
    let (d5, l, launching, h6) = >>=-eq-ok (launch m base) judged d4 h5 in
    let (attested, kept) = attest-eq-ok m spec pinned d1 d2 attestation in
    let (single, still) = check_request-eq-ok m pinned d2 d3 request in
    let same : d3.store ≡ d.store =
      ap (λ (x : Docker). x.store) still ∙ kept ∙ preflight_runtime-store m d d1 probe in
    let safe : is_locked pinned.policy ≡ true =
      ap (λ (p : SandboxSpec). is_locked p.policy) attested.same ∙ locked in
    record {
      authorized = authorized;
      pinned = pinned;
      attested = attested;
      single = single;
      bound = subst (Bound m pinned) same (verify_baked_input-eq-ok m pinned d3 d4 reading).0;
      base = base;
      hardened =
          build_argv-IsHardened m.lib.show_float m.config.runtime pinned pinned.policy base safe
            render;
      name = l.0;
      captured = l.1;
      output = launch-eq-ok m base d4 d5 l launching;
      crashed = judge-Crashed m l.0 (m.host.wall d5.calls) l.1 d5 t r h6 reproduced;
    }

pub run-Evidence :
    (m : Backend) (spec : SandboxSpec) (d t : Docker) (r : SandboxResult)
    → is_locked spec.policy ≡ true
    → run m spec d ≡ (t, ok r)
    → r.reproduced ≡ true
    → Evidence m spec d
run-Evidence m spec d t r locked h reproduced =
    let (authorized, rest) = run-eq-ok m spec d t r h in
    run_authorized-Evidence m spec d t r authorized locked rest reproduced
