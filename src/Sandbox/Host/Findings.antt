-- ===== src/Sandbox/Host/Findings.antt =====
-- The actions of a sandbox that leave the findings of the store alone.
use deep_thought.Prelude.{◌≡◌, refl, ◌∙◌, Bool, true, false}
use deep_thought.Result.{Error, Result, ok, raise}
use deep_thought.Sandbox.Host.{Docker, M, and_then, ◌>>=◌, guard}

abbrev pub Leaves : {A : Type 0} → M A → Type 0
Leaves x = (d : Docker) → (x d).0.store.findings ≡ d.store.findings

and_then-Leaves :
    {A B : Type 0} (f : A → M B) (d : Docker) (r : Result A)
    → ((a : A) → Leaves (f a))
    → (and_then f d r).0.store.findings ≡ d.store.findings
and_then-Leaves f d (ok a) h = h a d
and_then-Leaves f d (raise e) h = refl

-- in turn
pub >>=-Leaves :
    {A B : Type 0} (x : M A) (f : A → M B) → Leaves x → ((a : A) → Leaves (f a)) → Leaves (x >>= f)
>>=-Leaves x f h k d = and_then-Leaves f (x d).0 (x d).1 k ∙ h d

pub guard-Leaves : (b : Bool) (e : Error) → Leaves (guard b e)
guard-Leaves true e d = refl
guard-Leaves false e d = refl
