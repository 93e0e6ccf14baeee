-- ===== src/Agentd.antt =====
-- internal/agentd: what the agent on a device decides: which traffic goes into the tunnel
-- (FlowManager), and to which point of presence (PopSelector).
pub mod FlowManager
pub mod PopSelector
