-- ===== src/Sandbox/Runtime/Output.antt =====
-- What a capture that returned read: the output of a process that was launched.
use deep_thought.Prelude.{String, ◌≡◌, refl, arith, List}
use deep_thought.Result.{ok}
use deep_thought.Sandbox.Host.{Call, Process, Launched, not_started, interrupted, started, Docker}
use deep_thought.Sandbox.Capture.{Reader, capture_max, fresh_reader, read_loop}
use deep_thought.Sandbox.Runtime.{
  Backend, Captured, force_remove, collected, read_process, stream_capture,
}

abbrev pub reader_of : Process → Reader
reader_of p = read_loop capture_max p.events fresh_reader

-- A process that the host started for a command line, and what was read of it.
pub record OutputOf (m : Backend) (argv : List String) (c : Captured) : Type 0 where
  pub calls : List Call
  pub process : Process
  pub answer : m.host.launch calls argv ≡ started process
  pub out : c.stdout ≡ m.lib.decode (reader_of process).out
  pub err : c.stderr ≡ m.lib.decode (reader_of process).err
  pub code : c.returncode ≡ process.returncode

force_remove-store :
    (m : Backend) (name : String) (d : Docker) → (force_remove m name d).0.store ≡ d.store
unfolding force_remove
force_remove-store m name d = refl

started_of :
    (m : Backend) (argv : List String) (name : String) (calls : List Call) (x : Launched)
    (d t : Docker) (c : Captured)
    → m.host.launch calls argv ≡ x
    → read_process m name x d ≡ (t, ok c)
    → OutputOf m argv c × (t.store ≡ d.store)
unfolding read_process collected force_remove
started_of m argv name calls (not_started why) d t c e h = absurd (ground (arith, h))
started_of m argv name calls (interrupted why p) d t c e h = absurd (ground (arith, h))
started_of m argv name calls (started p) d t c e h = (
  record {
    calls = calls;
    process = p;
    answer = e;
    out = ground (arith, h);
    err = ground (arith, h);
    code = ground (arith, h);
  },
  ground (arith, h),
)

pub stream_capture-eq-ok :
    (m : Backend) (argv : List String) (name : String) (d t : Docker) (c : Captured)
    → stream_capture m argv name d ≡ (t, ok c)
    → OutputOf m argv c × (t.store ≡ d.store)
unfolding stream_capture
stream_capture-eq-ok m argv name d t c h =
    started_of m argv name d.calls (m.host.launch d.calls argv) _ t c refl h
