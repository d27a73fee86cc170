-- ===== src/StakeManager.antt =====
-- server/game/stake-manager.ts: stakes, credits and raid bookkeeping of the wallets. The class keeps
-- three groups of maps that no method mixes, and each is a state of its own: the pending yield with
-- its durable copies (Credits), and the stakes with the miners' states (Positions).
pub mod Credits
pub mod Positions
pub mod Presence
mod Tests
