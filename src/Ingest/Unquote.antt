-- ===== src/Ingest/Unquote.antt =====
-- `unquote` of Python's `urllib.parse`, which src/deepthought/ingest/sarif.py calls on the path of a
-- location. It goes through a text once and gathers the bytes of consecutive escapes; the parameter
-- `decode` is `bytes.decode("utf-8", "replace")` of such a run.
use Prim.Native.Char.{Char, code}
use deep_thought.Prelude.{
  ℕ, ◌+◌, ◌-◌, ◌*◌, String, ◌&◌, ◌&&◌, Option, none, some, List, [], ◌∷◌, ◌++◌, eqb, leb,
  if◌then◌else◌,
}

-- the value of a hexadecimal digit
hex_value : ℕ → Option ℕ
hex_value k =
    if leb b'0' k && leb k b'9'
    then some (k - b'0')
    else if leb b'A' k && leb k b'F'
    then some (k - b'A' + 10)
    else if leb b'a' k && leb k b'f'
    then some (k - b'a' + 10)
    else none

-- how much of an escape was read: nothing, the percent sign, or its first digit too
pub data Mark : Type 0 where
  plain percent : Mark
  one_digit : Char → Mark

-- what was written out, the bytes that wait to be decoded, and the mark
pub record State : Type 0 where
  pub out : String
  pub run : List ℕ
  pub mark : Mark

module _ (decode : List ℕ → String) where
  flush : State → String
  flush st = elim st.run [ [] ↦ st.out | (byte ∷ bytes) ↦ st.out & decode (byte ∷ bytes) ]

  -- the state after a text that is not part of an escape
  literal : String → State → State
  unfolding flush
  literal s st = record { out = flush st & s; run = []; mark = plain }

  read_plain : Char → State → State
  unfolding literal
  read_plain c st =
      if eqb (code c) b'%' then record st { mark = percent } else literal (String.◌∷◌ c "") st

  read_first : Char → Option ℕ → State → State
  unfolding read_plain literal
  read_first c (some d) st = record st { mark = one_digit c }
  read_first c none st = read_plain c (literal "%" st)

  read_second : Char → Option ℕ → Option ℕ → Char → State → State
  unfolding read_plain literal
  read_second first (some d) (some e) c st = record st {
    run = st.run ++ (d * 16 + e) ∷ [];
    mark = plain;
  }
  read_second first _ _ c st = read_plain c (literal ("%" & String.◌∷◌ first "") st)

  read_char : Mark → Char → State → State
  unfolding read_plain read_first read_second hex_value
  read_char plain c st = read_plain c st
  read_char percent c st = read_first c (hex_value (code c)) st
  read_char (one_digit first) c st =
      read_second first (hex_value (code first)) (hex_value (code c)) c st

  at_end : Mark → State → String
  unfolding flush
  at_end plain st = flush st
  at_end percent st = flush st & "%"
  at_end (one_digit first) st = flush st & ("%" & String.◌∷◌ first "")

  unquote_from : State → String → String
  unfolding read_char at_end
  unquote_from st String.[] = at_end st.mark st
  unquote_from st (String.◌∷◌ c s) = unquote_from (read_char st.mark c st) s

  -- `unquote(s)`
  unfoldable pub unquote : String → String
  unfolding unquote_from
  unquote s = unquote_from (record { out = ""; run = []; mark = plain }) s
