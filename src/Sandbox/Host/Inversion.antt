-- ===== src/Sandbox/Host/Inversion.antt =====
-- What the parts of a method that returned did.
use deep_thought.Prelude.{◌≡◌, refl, Bool, true, false, arith}
use deep_thought.Result.{Error, Result, ok, raise}
use deep_thought.Sandbox.Host.{Docker, M, ◌>>=◌, ◌>>◌, and_then, guard, lift}

and_then-eq-ok :
    {A B : Type 0} (f : A → M B) (d : Docker) (r : Result A) {d' : Docker} {b : B}
    → and_then f d r ≡ (d', ok b)
    → (a : A) × (r ≡ ok a) × (f a d ≡ (d', ok b))
and_then-eq-ok f d (ok a) h = (a, refl, h)
and_then-eq-ok f d (raise e) h = absurd (ground (arith, h))

-- A bind that returned: where its first part ended and with what.
pub >>=-eq-ok :
    {A B : Type 0} (m : M A) (f : A → M B) (d : Docker) {d' : Docker} {b : B}
    → (m >>= f) d ≡ (d', ok b)
    → (t : Docker) × (a : A) × (m d ≡ (t, ok a)) × (f a t ≡ (d', ok b))
>>=-eq-ok m f d h =
    let (a, e, k) = and_then-eq-ok f (m d).0 (m d).1 h in ((m d).0, a, ground (arith, e), k)

-- A guard that was passed: its test holds, and the rest runs from the same state.
pub guard-eq-ok :
    {B : Type 0} (test : Bool) (e : Error) (k : M B) (d : Docker) {d' : Docker} {b : B}
    → (guard test e >> k) d ≡ (d', ok b)
    → (test ≡ true) × (k d ≡ (d', ok b))
guard-eq-ok true e k d h = (refl, h)
guard-eq-ok false e k d h = absurd (ground (arith, h))

pub lift-eq-ok :
    {A B : Type 0} (r : Result A) (f : A → M B) (d : Docker) {d' : Docker} {b : B}
    → (lift r >>= f) d ≡ (d', ok b)
    → (a : A) × (r ≡ ok a) × (f a d ≡ (d', ok b))
lift-eq-ok r f d h = and_then-eq-ok f d r h
