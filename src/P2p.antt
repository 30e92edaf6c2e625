-- ===== src/P2p.antt =====
-- The peer-to-peer part of a node: hathor/p2p/.
pub mod RateLimiter
