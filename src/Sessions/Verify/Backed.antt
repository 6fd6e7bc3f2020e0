-- ===== src/Sessions/Verify/Backed.antt =====
-- VERIFY over the container backend.
use deep_thought.Store.{Store}
use deep_thought.Sandbox.Docker.Evidence.{Evidence}
use deep_thought.Sandbox.Seam.{Sandbox}
