-- ===== src/Result.antt =====
-- What code that may raise returns, with the exceptions of the program
-- (src/deepthought/store/base.py and src/deepthought/sandbox/base.py).
use deep_thought.Prelude.{String, ◌≡◌, refl, Bool, true, false}

pub data Error : Type 0 where
  duplicate_project : String → Error
  not_found : String → Error
  value_error : String → Error
  sandbox_error : String → Error
  execution_disabled : String → Error
  signoff_required : String → Error
  isolation_unavailable : String → Error
  os_error : String → Error  -- the library's `OSError`
  sarif_error : String → Error  -- of src/deepthought/ingest/sarif.py

pub data Result {ℓ} (A : Type ℓ) : Type ℓ where
  ok : A → Result A
  raise : Error → Result A

abbrev pub is_raised {ℓ} : {A : Type ℓ} → Result A → Bool
is_raised (ok a) = false
is_raised (raise e) = true

infixl 5 ◌>>=◌
abbrev pub ◌>>=◌ {ℓ κ} : {A : Type ℓ} {B : Type κ} → Result A → (A → Result B) → Result B
ok a >>= f = f a
raise e >>= f = raise e

-- A bind comes back only if both its parts do.
pub >>=-eq-ok {ℓ κ} :
    {B : Type κ} {A : Type ℓ} (next : A → Result B) (first : Result A) {out : B}
    → (first >>= next) ≡ ok out
    → (a : A) × (first ≡ ok a) × (next a ≡ ok out)
>>=-eq-ok next (raise e) came = cc
>>=-eq-ok next (ok a) came = (a, refl, came)
