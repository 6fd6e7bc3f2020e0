-- ===== src/Schema/Session.antt =====
-- src/deepthought/schema/session.py: the record, and the text under its `## Next steps` heading.
use Prim.Native.Char.{code}
use deep_thought.Prelude.{
  ℕ, String, Bool, true, false, not, ◌&&◌, Option, none, some, List, ◌==◌, eqb, if◌then◌else◌, ◌≡◌,
  refl,
}
use deep_thought.Prelude.Text.{is_space, lstrip, lstrip_of, strip, strip_of, after}
use deep_thought.Schema.Status.{SessionType, GateOutcome, CloseState}

-- `ContextCost`; the seconds are counted in microseconds
pub record ContextCost : Type 0 where
  pub tokens : ℕ
  pub wall_seconds : ℕ

abbrev pub no_cost : ContextCost
no_cost = record { tokens = 0; wall_seconds = 0 }

pub record Session : Type 0 where
  pub id : String
  pub type : SessionType
  pub project : Option String
  pub started : String
  pub closed : Option String
  pub gate_outcome : Option GateOutcome
  pub gate_reason : Option String
  pub close_state : CloseState
  pub findings_touched : List String
  pub coverage_changed : List String
  pub context_cost : ContextCost
  pub body : String

-- whether a text goes on with a blank character, `\s`
starts_space : String → Bool
starts_space String.[] = false
starts_space (String.◌∷◌ c s) = is_space (code c)

-- `^##\s` at a line start
starts_heading : String → Bool
unfolding after starts_space
starts_heading s = elim (after "##" s) [ none ↦ false | some t ↦ starts_space t ]

-- `\s*$` in front of more text: the last line break of the run of blanks
last_break : String → Option String
last_break String.[] = none
last_break (String.◌∷◌ c s) =
    let later = last_break s in
    let here : Option String = if eqb (code c) 10 then some (String.◌∷◌ c s) else none in
    if is_space (code c) then elim later [ none ↦ here | some t ↦ some t ] else none

-- `##\s+Next steps\s*$` at a line start: the rest, from where the group begins
heading : String → Option String
unfolding after starts_space last_break lstrip_of
heading s = elim (after "##" s) [
  | none ↦ none
  | some t ↦
      if starts_space t
      then elim (after "Next steps" (lstrip t)) [
        | none ↦ none
        | some r ↦ if lstrip r == "" then some "" else last_break r
      ]
      else none
]

-- `(.*?)(?=^##\s|\Z)`
until_heading : Bool → String → String
unfolding starts_heading
until_heading line_start String.[] = ""
until_heading line_start (String.◌∷◌ c s) =
    let rest = until_heading (eqb (code c) 10) s in
    if line_start && starts_heading (String.◌∷◌ c s) then "" else String.◌∷◌ c rest

-- the first match of the whole pattern, `^` being the start of the text or of a line
search_steps : Bool → String → Option String
unfolding heading until_heading
search_steps line_start String.[] = none
search_steps line_start (String.◌∷◌ c s) =
    let later = search_steps (eqb (code c) 10) s in
    let here : Option String = if line_start then heading (String.◌∷◌ c s) else none in
    elim here [ none ↦ later | some r ↦ some (until_heading false r) ]

-- `next_steps` of a body
unfoldable pub next_steps : String → String
unfolding search_steps strip_of
next_steps body = elim (search_steps true body) [ none ↦ "" | some t ↦ strip t ]

unfoldable pub has_next_steps : String → Bool
unfolding next_steps
has_next_steps body = not (next_steps body == "")

steps_found : next_steps "## Summary\n\nx\n\n## Next steps\n\nDo it. \n\n## More\n\ny" ≡ "Do it."
unfolding next_steps
steps_found = refl

no_steps_found :
    (has_next_steps "## Summary\n\nx ## Next steps\ny" ≡ false)
    × (has_next_steps "## Next steps \n \n## More\n\ny" ≡ false)
    × (has_next_steps "## Next steps taken\n\ny" ≡ false)
    × (has_next_steps "##\nNext steps\n\ny" ≡ true)
unfolding has_next_steps
no_steps_found = (refl, refl, refl, refl)
