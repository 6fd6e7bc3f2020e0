-- ===== src/Sessions/Discover/Numbers.antt =====
-- The number of a finding, and its id.
use text.Mathlib.TextLemmas.{nil-append, cons-append, append_assoc}
use Prim.Native.Char.{Char, code}
use Prim.Native.String.{count}
use deep_thought.Prelude.{
  ℕ, zero, suc, ◌+◌, ◌-◌, ◌*◌, ◌/◌, ◌%◌, ◌≤◌, ◌<◌, String, ◌&◌, ◌≡◌, refl, ap, ◌∙◌, inl, inr, ◌⊎◌,
  true, none, some, ltb, ltb→lt, arith, Bool-cases,
}
use deep_thought.Prelude.Text.{after, digit, digit_in, show, show_from, zeros, pad}
use deep_thought.Ids.{size}
use deep_thought.Ids.Sizes.{size-append}
use deep_thought.Ingest.Patterns.{is_digit}
use deep_thought.Sessions.Discover.{digits_from, digits, number_of}

-- a digit of a value
abbrev IsDigitOf : ℕ → Type 0
IsDigitOf d =
    (c : Char) × (digit d ≡ String.◌∷◌ c "") × (is_digit (code c) ≡ true) × (code c - b'0' ≡ d)

digit-IsDigitOf : (d : ℕ) → d < 10 → IsDigitOf d
unfolding digit digit_in
digit-IsDigitOf zero h = ("0", refl, refl, refl)
digit-IsDigitOf (suc zero) h = ("1", refl, refl, refl)
digit-IsDigitOf (suc (suc zero)) h = ("2", refl, refl, refl)
digit-IsDigitOf (suc (suc (suc zero))) h = ("3", refl, refl, refl)
digit-IsDigitOf (suc (suc (suc (suc zero)))) h = ("4", refl, refl, refl)
digit-IsDigitOf (suc (suc (suc (suc (suc zero))))) h = ("5", refl, refl, refl)
digit-IsDigitOf (suc (suc (suc (suc (suc (suc zero)))))) h = ("6", refl, refl, refl)
digit-IsDigitOf (suc (suc (suc (suc (suc (suc (suc zero))))))) h = ("7", refl, refl, refl)
digit-IsDigitOf (suc (suc (suc (suc (suc (suc (suc (suc zero)))))))) h = ("8", refl, refl, refl)
digit-IsDigitOf (suc (suc (suc (suc (suc (suc (suc (suc (suc zero))))))))) h =
    ("9", refl, refl, refl)
digit-IsDigitOf (suc (suc (suc (suc (suc (suc (suc (suc (suc (suc d)))))))))) h =
    absurd (omega arith)

digits_from-digit : (acc d : ℕ) → d < 10 → digits_from acc (digit d) ≡ some (acc * 10 + d)
unfolding digits_from
digits_from-digit acc d small =
    let (c, shown, good, value) = digit-IsDigitOf d small in rw shown (rw good (rw value refl))

-- one more digit at the end
digits_from-snoc :
    (acc m d : ℕ) (s : String)
    → d < 10
    → digits_from acc s ≡ some m
    → digits_from acc (s & digit d) ≡ some (m * 10 + d)
unfolding digits_from
digits_from-snoc acc m d String.[] small h =
    rw nil-append (digits_from-digit acc d small ∙ ground (arith, h))
digits_from-snoc acc m d (String.◌∷◌ c s) small h =
    rw cons-append (elim (Bool-cases (is_digit (code c))) [
      | inl good ↦
          rw good (digits_from-snoc (acc * 10 + (code c - b'0')) m d s small (rw good at h))
      | inr bad ↦ let e : none ≡ some m = rw bad at h in absurd (cc)
    ])

digits_from-show_from : (fuel n : ℕ) → n ≤ fuel → digits_from 0 (show_from fuel n) ≡ some n
unfolding show_from
digits_from-show_from zero n h = digits_from-digit 0 n (omega arith) ∙ ap some (omega arith)
digits_from-show_from (suc fuel) n h = elim (Bool-cases (ltb n 10)) [
  | inl small ↦ rw small (digits_from-digit 0 n (ltb→lt n 10 small) ∙ ap some (omega arith))
  | inr big ↦
      let ten : 10 ≤ n = ground arith in
      rw big (
        digits_from-snoc 0 (n / 10) (n % 10) (show_from fuel (n / 10)) (omega arith)
          (digits_from-show_from fuel (n / 10) (omega arith))
        ∙ ap some (omega arith))
]

digits_from-zeros : (k : ℕ) (s : String) → digits_from 0 (zeros k & s) ≡ digits_from 0 s
unfolding zeros digits_from
digits_from-zeros zero s = ap (digits_from 0) (nil-append s)
digits_from-zeros (suc k) s =
    rw (append_assoc "0" (zeros k) s) (
      rw (cons-append "0" "" (zeros k & s)) (rw (nil-append (zeros k & s)) (digits_from-zeros k s)))

-- a text that has a number and is not empty
digits_or_empty : (n : ℕ) (s : String) → digits_from 0 s ≡ some n → (s ≡ "") ⊎ (digits s ≡ some n)
unfolding digits
digits_or_empty n String.[] h = inl refl
digits_or_empty n (String.◌∷◌ c s) h = inr h

after-dash : (s : String) → after "F-" ("F-" & s) ≡ some s
unfolding after
after-dash s = rw (cons-append "F" "-" s) (rw (cons-append "-" "" s) (rw (nil-append s) refl))

size-digit : (d : ℕ) → d < 10 → size (digit d) ≡ 1
size-digit d small = let (c, shown, good, value) = digit-IsDigitOf d small in ap size shown

size-show_from : (fuel n : ℕ) → n ≤ fuel → 1 ≤ size (show_from fuel n)
unfolding show_from
size-show_from zero n h = omega (arith, size-digit n (omega arith))
size-show_from (suc fuel) n h = elim (Bool-cases (ltb n 10)) [
  | inl small ↦ rw small (omega (arith, size-digit n (ltb→lt n 10 small)))
  | inr big ↦ rw big (
      omega (
        arith,
        size-append (show_from fuel (n / 10)) (digit (n % 10)),
        size-digit (n % 10) (omega arith),
      ))
]

-- The number that an id is printed with is read back from it.
pub number_of-pad : (n : ℕ) → number_of ("F-" & pad 4 n) ≡ some n
unfolding number_of pad show
number_of-pad n =
    let k = 4 - count (show_from n n) in
    let whole = zeros k & show_from n n in
    let read : digits_from 0 whole ≡ some n =
      digits_from-zeros k (show_from n n) ∙ digits_from-show_from n n (omega arith) in
    rw (after-dash whole) (elim (digits_or_empty n whole read) [
      | inl gone ↦ absurd (
          omega (
            arith,
            ap size gone,
            size-append (zeros k) (show_from n n),
            size-show_from n n (omega arith),
          ))
      | inr found ↦ found
    ])
