-- ===== src/Sandbox/Docker/Cleanup.antt =====
-- What `teardown` leaves behind.
use deep_thought.Prelude.{
  String, ◌≡◌, ◌⊎◌, refl, Bool, true, false, inl, inr, Option, none, some, List, [], ◌∷◌, ◌++◌,
  arith, Bool-cases,
}
use deep_thought.Prelude.Text.{contains, lower}
use deep_thought.Prelude.Ints.{ℤ, pos, negsuc, is_nat}
use deep_thought.Result.{Result, ok, raise, sandbox_error}
use deep_thought.Sandbox.Host.{executed, Executed, failed, exited, Docker}
use deep_thought.Sandbox.Runtime.{Backend, runtime_prefix, confirms, force_remove}
use deep_thought.Sandbox.Docker.{removed, teardown_of, teardown}

-- an answer to `rm -f` after which the container is gone: it was removed, or there was none
abbrev pub IsGone : Executed → Type 0
IsGone (failed why) = ⊥
IsGone (exited code out err) = (code ≡ pos 0) ⊎ (contains "no such container" (lower err) ≡ true)

is_zero : (code : ℤ) → is_nat 0 code ≡ true → code ≡ pos 0
is_zero (pos n) h = let e : n ≡ 0 = ground arith in rw e refl
is_zero (negsuc n) h = cc

confirms-IsGone : (m : Backend) (a : Executed) → confirms m a ≡ true → IsGone a
confirms-IsGone m (failed why) h = cc
confirms-IsGone m (exited code out err) h = elim (Bool-cases (is_nat 0 code)) [
  | inl zero ↦ inl (is_zero code zero)
  | inr other ↦ inr (rw other at h)
]

IsGone-confirms : (m : Backend) (a : Executed) → IsGone a → confirms m a ≡ true
IsGone-confirms m (failed why) h = absurd h
IsGone-confirms m (exited code out err) (inl e) = rw e refl
IsGone-confirms m (exited code out err) (inr e) = ground (arith, e)

module _ (m : Backend) (d : Docker) where
  abbrev removal : String → List String
  removal name = runtime_prefix m.config.runtime ++ "rm" ∷ "-f" ∷ name ∷ []

  abbrev asked : String → Docker
  asked name = record d { calls = d.calls ++ executed (removal name) ∷ [] }

  abbrev answer : String → Executed
  answer name = m.host.execute d.calls (removal name)

  -- what a teardown comes to
  pub data IsTornDown : Docker × Result (Unit {0}) → Type 0 where
    idle : d.active_container ≡ none → IsTornDown (d, ok tt)
    cleaned :
        (name : String)
        → d.active_container ≡ some name
        → IsGone (answer name)
        → IsTornDown (record (asked name) { active_container = none }, ok tt)
    held :
        (name why : String)
        → d.active_container ≡ some name
        → (IsGone (answer name) → ⊥)
        → IsTornDown (asked name, raise (sandbox_error why))

  removed-IsTornDown :
      (name : String) (b : Bool)
      → d.active_container ≡ some name
      → confirms m (answer name) ≡ b
      → IsTornDown (removed m name b (asked name))
  unfolding removed
  removed-IsTornDown name true here e = cleaned name here (confirms-IsGone m (answer name) e)
  removed-IsTornDown name false here e =
      held name _ here (λ gone. cc (IsGone-confirms m (answer name) gone, e))

  teardown_of-IsTornDown :
      (o : Option String) → d.active_container ≡ o → IsTornDown (teardown_of m o d)
  unfolding teardown_of force_remove
  teardown_of-IsTornDown none h = idle h
  teardown_of-IsTornDown (some name) h = removed-IsTornDown name (confirms m (answer name)) h refl

  -- A teardown with no container held active does nothing. With one, its only call is the removal of
  -- that container: if the answer says that it was removed or that there was none, the teardown returns
  -- and holds none active, and otherwise it raises and holds the same container active.
  pub teardown-IsTornDown : IsTornDown (teardown m d)
  unfolding teardown
  teardown-IsTornDown = teardown_of-IsTornDown d.active_container refl
