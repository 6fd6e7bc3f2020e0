-- ===== src/Sandbox/Runtime/Findings.antt =====
-- The runtime's calls, and the findings of the store.
use deep_thought.Prelude.{String, refl, Bool, true, false, List}
use deep_thought.Store.Detail.{write_detail}
use deep_thought.Sandbox.Host.{Launched, not_started, interrupted, started}
use deep_thought.Sandbox.Host.Findings.{Leaves}
use deep_thought.Sandbox.Runtime.{
  Backend, page_text, force_remove, run_id, collected, read_process, stream_capture, page, clear_if,
}

page_text-Leaves :
    (run_id name : String) (b : Bool) (content : String) → Leaves (page_text run_id name b content)
unfolding write_detail
page_text-Leaves run_id name false content d = refl
page_text-Leaves run_id name true content d = refl

module _ (m : Backend) where
  pub page-Leaves : (name file content : String) → Leaves (page m name file content)
  unfolding page
  page-Leaves name file content = page_text-Leaves name file _ content

  pub force_remove-Leaves : (name : String) → Leaves (force_remove m name)
  unfolding force_remove
  force_remove-Leaves name d = refl

  pub clear_if-Leaves : (b : Bool) → Leaves (clear_if m b)
  clear_if-Leaves true d = refl
  clear_if-Leaves false d = refl

  read_process-Leaves : (name : String) (l : Launched) → Leaves (read_process m name l)
  unfolding read_process collected force_remove
  read_process-Leaves name (not_started why) d = refl
  read_process-Leaves name (interrupted why p) d = refl
  read_process-Leaves name (started p) d = refl

  pub stream_capture-Leaves :
      (argv : List String) (name : String) → Leaves (stream_capture m argv name)
  unfolding stream_capture
  stream_capture-Leaves argv name d = read_process-Leaves name _ _
