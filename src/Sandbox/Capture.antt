-- ===== src/Sandbox/Capture.antt =====
-- The reader of a container's output (the loop of `_stream_capture` in
-- src/deepthought/sandbox/docker.py): chunks are taken up to a cap on both streams together.
pub mod Bounds
use deep_thought.Prelude.{
  ℕ, ◌+◌, ◌-◌, ◌*◌, Bool, true, false, not, ◌&&◌, ◌||◌, List, [], ◌∷◌, ◌++◌, length, take, leb, ltb,
  if◌then◌else◌,
}
use deep_thought.Sandbox.Host.{Bytes, Event, quiet, ready}

abbrev pub capture_max : ℕ
capture_max = 1024 * 1024

-- the variables of the loop
pub record Reader : Type 0 where
  pub out : Bytes
  pub err : Bytes
  pub total : ℕ
  pub out_open : Bool
  pub err_open : Bool
  pub timed_out : Bool
  pub overflowed : Bool

abbrev pub fresh_reader : Reader
fresh_reader = record {
  out = [];
  err = [];
  total = 0;
  out_open = true;
  err_open = true;
  timed_out = false;
  overflowed = false;
}

-- the end of a stream
closed : Bool → Reader → Reader
closed true r = record r { out_open = false }
closed false r = record r { err_open = false }

extend : Bool → Bytes → Reader → Reader
extend true b r = record r { out = r.out ++ b; total = r.total + length b }
extend false b r = record r { err = r.err ++ b; total = r.total + length b }

-- what is taken of a chunk: nothing past the cap
accepted : ℕ → Bool → Bytes → Reader → Reader
unfolding extend
accepted cap fd chunk r =
    let r' = if ltb 0 (cap - r.total) then extend fd (take (cap - r.total) chunk) r else r in
    record r' { overflowed = leb cap r'.total }

-- the `for fd in ready` loop, which an overflow breaks
unfoldable pub read_ready : ℕ → List (Bool × Bytes) → Reader → Reader
unfolding closed accepted
read_ready cap [] r = r
read_ready cap ((fd, []) ∷ chunks) r = read_ready cap chunks (closed fd r)
read_ready cap ((fd, b ∷ bytes) ∷ chunks) r =
    let r' = accepted cap fd (b ∷ bytes) r in
    let rest = read_ready cap chunks r' in if r'.overflowed then r' else rest

abbrev timeout : Reader → Reader
timeout r = record r { timed_out = true }

abbrev is_reading : Reader → Bool
is_reading r = (r.out_open || r.err_open) && not r.overflowed

-- the `while` loop; where the events end, the deadline is over
unfoldable pub read_loop : ℕ → List Event → Reader → Reader
unfolding read_ready
read_loop cap [] r = if is_reading r then timeout r else r
read_loop cap (quiet ∷ events) r = if is_reading r then timeout r else r
read_loop cap (ready chunks ∷ events) r =
    let rest = read_loop cap events (read_ready cap chunks r) in if is_reading r then rest else r
