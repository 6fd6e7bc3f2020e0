-- ===== src/Sandbox/Asan/Sliced.antt =====
-- The slice of an output that report_from_header takes, against the whole of it.
use deep_thought.Prelude.{ℕ, zero, suc, String, ◌≡◌, refl, sym, Bool, Option, none, some}
use deep_thought.Ids.{size}
use deep_thought.Sandbox.Asan.Headers.{
  covered, rest_of, err_here, last_of, last_from, last_err, or_whole, report_from_header,
}
use deep_thought.Sandbox.Asan.{parse_asan}

-- The last header of a text is the last header of the text from there on.
last_of-again :
    (found : Option (String × String)) (here : String) (later : Option String) (r : String)
    → ((q : String) → later ≡ some q → last_from 0 q ≡ some q)
    → last_from 0 here ≡ last_of found here later
    → last_of found here later ≡ some r
    → last_from 0 r ≡ some r
last_of-again none here later r deeper unfolds h = deeper r h
last_of-again (some found) here (some q) r deeper unfolds h = deeper r h
last_of-again (some found) here none r deeper unfolds h =
    let same : here ≡ r = cc in rw (sym same) (rw unfolds refl)

last_from-again :
    (skip : ℕ) (text r : String) → last_from skip text ≡ some r → last_from 0 r ≡ some r
unfolding last_from
last_from-again skip String.[] r h = cc
last_from-again (suc skip) (String.◌∷◌ c s) r h = last_from-again skip s r h
last_from-again zero (String.◌∷◌ c s) r h =
    let found = err_here (String.◌∷◌ c s) in
    let skip = covered (size (String.◌∷◌ c s)) (rest_of found) in
    last_of-again found (String.◌∷◌ c s) (last_from skip s) r (λ q. last_from-again skip s q) refl h

last_err-or_whole :
    (text : String) (o : Option String) → last_err text ≡ o → last_err (or_whole text o) ≡ o
unfolding last_err
last_err-or_whole text none h = h
last_err-or_whole text (some r) h = last_from-again 0 text r h

module _ (sha256 : String → String) (is_wide : ℕ → Bool) (wide_digit : ℕ → Option ℕ) where
  -- What report_from_header takes of an output, from the last header on, gives the same crash as the
  -- whole output, or none where the whole gives none. A page keeps the first 65536 characters of it, and
  -- of that cut nothing is said.
  pub parse_asan-report_from_header :
      (text : String)
      → parse_asan sha256 is_wide wide_digit (report_from_header text)
        ≡ parse_asan sha256 is_wide wide_digit text
  unfolding parse_asan report_from_header
  parse_asan-report_from_header text = rw (last_err-or_whole text (last_err text) refl) refl
