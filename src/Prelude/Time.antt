-- ===== src/Prelude/Time.antt =====
-- Points of time: microseconds since 1970-01-01T00:00:00Z, printed by the civil calendar as
-- `strftime` does (`iso_z` of src/deepthought/schema/common.py).
use Prim.Native.Nat.{ℕ, ◌+◌, ◌-◌, ◌*◌, ◌/◌, ◌%◌}
use Prim.Native.String.{String, ◌++◌}
use deep_thought.Prelude.Tests.{ltb, leb, eqb, if◌then◌else◌}
use deep_thought.Prelude.Text.{pad}

-- `clock` is the sequence of the answers of the clock; a run counts its calls.
abbrev pub Clock : Type 0
Clock = ℕ → ℕ

-- Year, month and day of a day number, by 400-year eras that begin on 1 March.
abbrev pub Civil : Type 0
Civil = ℕ × ℕ × ℕ

unfoldable pub civil : ℕ → Civil
civil days =
    let z = days + 719468 in
    let era = z / 146097 in
    let doe = z - era * 146097 in
    let yoe = (doe - doe / 1460 + doe / 36524 - doe / 146096) / 365 in
    let doy = doe - (365 * yoe + yoe / 4 - yoe / 100) in
    let mp = (5 * doy + 2) / 153 in
    let d = doy - (153 * mp + 2) / 5 + 1 in
    let m = if ltb mp 10 then mp + 3 else mp - 9 in
    let y = yoe + era * 400 + (if leb m 2 then 1 else 0) in (y, m, d)

-- `strftime("%Y-%m-%d")`
unfoldable pub date : ℕ → String
unfolding civil pad
date t =
    let (y, m, d) = civil (t / 86400000000) in pad 4 y ++ ("-" ++ (pad 2 m ++ ("-" ++ pad 2 d)))

-- `iso_z(value)`
unfoldable pub iso_z : ℕ → String
unfolding date
iso_z t =
    let s = t / 1000000 in
    let clock_time =
      date t
      ++ ("T"
          ++ (pad 2 (s / 3600 % 24)
              ++ (":" ++ (pad 2 (s / 60 % 60) ++ (":" ++ pad 2 (s % 60)))))) in
    if eqb (t % 1000000) 0
    then clock_time ++ "Z"
    else clock_time ++ ("." ++ (pad 6 (t % 1000000) ++ "Z"))
