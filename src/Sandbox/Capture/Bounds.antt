-- ===== src/Sandbox/Capture/Bounds.antt =====
-- The reader against its cap.
use deep_thought.Prelude.{
  if_ind, ℕ, zero, suc, ◌+◌, ◌-◌, ◌≤◌, ◌≡◌, Bool, true, false, List, [], ◌∷◌, arith, length, take,
  leb, length-append, if◌then◌else◌,
}
use deep_thought.Sandbox.Host.{Bytes, Event, quiet, ready}
use deep_thought.Sandbox.Capture.{
  Reader, closed, extend, accepted, read_ready, timeout, is_reading, read_loop,
}

-- Both buffers together hold the bytes that were counted, which are at most the cap, and the reader
-- has overflowed exactly if they reach it.
pub record IsBounded (cap : ℕ) (r : Reader) : Type 0 where
  pub counted : length r.out + length r.err ≡ r.total
  pub within : r.total ≤ cap
  pub overflow : r.overflowed ≡ leb cap r.total

length-take : (n : ℕ) (b : Bytes) → length (take n b) ≤ n
length-take zero b = omega arith
length-take (suc n) [] = omega arith
length-take (suc n) (x ∷ b) = omega (arith, length-take n b)

closed-IsBounded :
    (cap : ℕ) (fd : Bool) (r : Reader) → IsBounded cap r → IsBounded cap (closed fd r)
unfolding closed
closed-IsBounded cap true r v = record {
  counted = v.counted;
  within = v.within;
  overflow = v.overflow;
}
closed-IsBounded cap false r v = record {
  counted = v.counted;
  within = v.within;
  overflow = v.overflow;
}

accepted-IsBounded :
    (cap : ℕ) (fd : Bool) (chunk : Bytes) (r : Reader)
    → IsBounded cap r
    → IsBounded cap (accepted cap fd chunk r)
unfolding accepted extend
accepted-IsBounded cap true chunk r v =
    let taken = take (cap - r.total) chunk in
    ground (arith, length-append r.out taken, length-take (cap - r.total) chunk)
accepted-IsBounded cap false chunk r v =
    let taken = take (cap - r.total) chunk in
    ground (arith, length-append r.err taken, length-take (cap - r.total) chunk)

read_ready-IsBounded :
    (cap : ℕ) (chunks : List (Bool × Bytes)) (r : Reader)
    → IsBounded cap r
    → IsBounded cap (read_ready cap chunks r)
unfolding read_ready
read_ready-IsBounded cap [] r v = v
read_ready-IsBounded cap ((fd, []) ∷ chunks) r v =
    read_ready-IsBounded cap chunks (closed fd r) (closed-IsBounded cap fd r v)
read_ready-IsBounded cap ((fd, b ∷ bytes) ∷ chunks) r v =
    let r' = accepted cap fd (b ∷ bytes) r in
    let v' = accepted-IsBounded cap fd (b ∷ bytes) r v in
    if_ind (IsBounded cap) _ _ _ (λ _. v') (λ _. read_ready-IsBounded cap chunks r' v')

timeout-IsBounded :
    (cap : ℕ) (r : Reader) → IsBounded cap r → IsBounded cap (if is_reading r then timeout r else r)
timeout-IsBounded cap r v =
    if_ind (IsBounded cap) (is_reading r) (timeout r) r
      (λ _. record { counted = v.counted; within = v.within; overflow = v.overflow }) (λ _. v)

-- Whatever a container writes, and in whatever order, the reader's buffers stay within the cap, it
-- counts what they hold, and it reports an overflow exactly if they are full.
pub read_loop-IsBounded :
    (cap : ℕ) (events : List Event) (r : Reader)
    → IsBounded cap r
    → IsBounded cap (read_loop cap events r)
unfolding read_loop
read_loop-IsBounded cap [] r v = timeout-IsBounded cap r v
read_loop-IsBounded cap (quiet ∷ events) r v = timeout-IsBounded cap r v
read_loop-IsBounded cap (ready chunks ∷ events) r v =
    if_ind (IsBounded cap) (is_reading r) _ r
      (λ _. read_loop-IsBounded cap events _ (read_ready-IsBounded cap chunks r v)) (λ _. v)
