-- ===== src/Wot.antt =====
-- The web of trust: the graph and the policy that rests on it.
pub mod Graph
pub mod Policy
