-- ===== src/Loop.antt =====
-- The autonomous loop (src/deepthought/loop): the policy that proposes one safe action and the
-- driver that runs actions within a budget.
pub mod Policy
pub mod Driver
