-- ===== src/Sandbox/Asan.antt =====
-- The reader of AddressSanitizer reports (src/deepthought/sandbox/asan.py). Its patterns are scans: but
-- for the place of a frame, there is one way for each to match at a place of the text. The parameters
-- are the digest of a text, which characters beyond ASCII are alphanumeric, and which digit one is.
pub mod Headers
pub mod Sliced
use Prim.Native.Char.{code}
use deep_thought.Prelude.{
  ℕ, zero, suc, ◌+◌, ◌*◌, ◌-◌, String, ◌&◌, Bool, true, false, not, ◌&&◌, ◌||◌, Option, none, some,
  List, [], ◌∷◌, ◌==◌, is_some, map, take, eqb, leb, if◌then◌else◌,
}
use deep_thought.Prelude.Text.{after, is_space, join}
use deep_thought.Ids.{size, take_chars}
use deep_thought.Ingest.Patterns.{is_digit, is_letter, is_word, starts_word}
use deep_thought.Sandbox.{CrashReport}
use deep_thought.Sandbox.Asan.Headers.{
  span, if_any, group, rest_of, blanks, past, literal, covered, err_here, last_of, last_from,
  last_err, or_whole, report_from_header,
}

module _ (sha256 : String → String) (is_wide : ℕ → Bool) (wide_digit : ℕ → Option ℕ) where
  -- `\d`
  unfoldable pub digit_of : ℕ → Option ℕ
  digit_of c = if is_digit c then some (c - b'0') else (if leb 128 c then wide_digit c else none)

  abbrev digits : Option String → Option (String × String)
  digits o = group (λ c. is_some (digit_of c)) o

  abbrev up_to_word_end : String → Option (String × String) → Option (String × String)
  up_to_word_end kind none = none
  up_to_word_end kind (some (size, rest)) =
      if starts_word is_wide rest then none else some (kind, size)

  abbrev sized : String → String → Option (String × String)
  sized kind s = up_to_word_end kind (digits (literal " of size " (literal kind (some s))))

  abbrev first_of : Option (String × String) → Option (String × String) → Option (String × String)
  first_of none other = other
  first_of (some found) other = some found

  -- `_ACCESS` at a place that is not within a word
  access_here : String → Option (String × String)
  unfolding group literal digit_of
  access_here s = first_of (sized "READ" s) (sized "WRITE" s)

  -- `_ACCESS.search(s)`
  unfoldable pub access_from : Bool → String → Option (String × String)
  unfolding access_here
  access_from in_word String.[] = none
  access_from in_word (String.◌∷◌ c s) =
      let here = if in_word then none else access_here (String.◌∷◌ c s) in
      first_of here (access_from (is_word is_wide (code c)) s)

  abbrev longer : String → Option (String × String) → Option (String × String)
  longer c none = none
  longer c (some (front, rest)) = some (c & front, rest)

  -- `[^\s(]+:\d+(?::\d+)?` within its run of characters: the last colon that a digit follows ends the
  -- first part, and then no second number is left
  unfoldable pub place : Bool → String → Option (String × String)
  unfolding digit_of group
  place at_start String.[] = none
  place at_start (String.◌∷◌ c s) =
      let later = longer (String.◌∷◌ c "") (place false s) in
      let here = if not at_start && eqb (code c) b':' then longer ":" (digits (some s)) else none in
      first_of later here

  abbrev then_more : String → Option (String × String) → Option (String × String)
  then_more more none = none
  then_more more (some (loc, rest)) = some (loc, rest & more)

  abbrev placed : Option (String × String) → Option (String × String)
  placed none = none
  placed (some (token, more)) = then_more more (place true token)

  abbrev named : String → Option (String × String) → Option ((String × String) × String)
  named fn none = none
  named fn (some (loc, rest)) = some ((fn, loc), rest)

  abbrev with_function : Option (String × String) → Option ((String × String) × String)
  with_function none = none
  with_function (some (fn, rest)) =
      named fn (placed (group (λ c. not (is_space c || eqb c b'(')) (blanks (some rest))))

  abbrev is_hex : ℕ → Bool
  is_hex c = is_digit c || leb b'a' c && leb c b'f' || leb b'A' c && leb c b'F'

  -- `_FRAME` at the front of a text: function and place, and what follows
  unfoldable pub frame_here : String → Option ((String × String) × String)
  unfolding group literal place digit_of
  frame_here s =
      let number = rest_of (digits (literal "#" (some s))) in
      let address = past (λ c. is_hex c) (literal "0x" (blanks number)) in
      let function = blanks (literal "in" (blanks address)) in
      with_function (group (λ c. not (is_space c)) function)

  abbrev after_frame : Option ((String × String) × String) → Option String
  after_frame none = none
  after_frame (some (frame, rest)) = some rest

  abbrev onto_frames :
      Option ((String × String) × String) → List (String × String) → List (String × String)
  onto_frames none later = later
  onto_frames (some (frame, rest)) later = frame ∷ later

  -- `_FRAME.findall(s)`
  unfoldable pub frames_from : ℕ → String → List (String × String)
  unfolding frame_here
  frames_from skip String.[] = []
  frames_from (suc skip) (String.◌∷◌ c s) = frames_from skip s
  frames_from zero (String.◌∷◌ c s) =
      let found = frame_here (String.◌∷◌ c s) in
      let length = size (String.◌∷◌ c s) in
      onto_frames found (frames_from (covered length (after_frame found)) s)

  abbrev or_zero : Option ℕ → ℕ
  or_zero none = 0
  or_zero (some n) = n

  number_from : ℕ → String → ℕ
  unfolding digit_of
  number_from n String.[] = n
  number_from n (String.◌∷◌ c s) = number_from (n * 10 + or_zero (digit_of (code c))) s

  -- `_safe_int`: `int` refuses a text of more than 4300 digits
  unfoldable pub safe_int : String → Option ℕ
  unfolding number_from
  safe_int s = if leb (size s) 4300 then some (number_from 0 s) else none

  abbrev kind_of : Option (String × String) → String
  kind_of none = ""
  kind_of (some (kind, amount)) = kind

  abbrev size_of : Option (String × String) → Option ℕ
  size_of none = none
  size_of (some (kind, amount)) = safe_int amount

  abbrev head_frame : List (String × String) → String × String
  head_frame [] = ("", "")
  head_frame (frame ∷ frames) = frame

  abbrev shown : String × String → String
  shown (fn, loc) = take_chars 128 (fn & (" " & loc))

  abbrev or_else : String → String → String
  or_else s other = if s == "" then other else s

  unfoldable pub crash_report :
      String → Option (String × String) → List (String × String) → CrashReport
  unfolding take_chars safe_int
  crash_report error_type access frames =
      let (fn, loc) = head_frame frames in
      let top = map (λ f. shown f) (take 8 frames) in
      record {
        sanitizer = "AddressSanitizer";
        error_type = take_chars 128 error_type;
        access = take_chars 128 (kind_of access);
        access_size = size_of access;
        faulting_function = take_chars 128 fn;
        faulting_location = take_chars 512 loc;
        top_frames = top;
        dedup_key =
            take_chars 16 (sha256 (or_else (join "|" (take 3 top)) (error_type & (":" & loc))));
        raw_ref = none;
      }

  -- a header alone is no evidence of a crash
  abbrev pub distil :
      String → Option (String × String) → List (String × String) → Option CrashReport
  distil error_type none [] = none
  distil error_type none (f ∷ fs) = some (crash_report error_type none (f ∷ fs))
  distil error_type (some access) frames = some (crash_report error_type (some access) frames)

  abbrev pub of_report : Option String → Option CrashReport
  of_report none = none
  of_report (some report) =
      distil (kind_of (err_here report)) (access_from false report) (frames_from 0 report)

  unfoldable pub parse_asan : String → Option CrashReport
  unfolding last_err err_here access_from frames_from crash_report
  parse_asan text = of_report (last_err text)
