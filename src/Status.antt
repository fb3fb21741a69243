-- ===== src/Status.antt =====
-- The two lifecycles that src/mapping.rs tracks: the statuses of a swap and of an offramp.
pub mod SwapStatus
pub mod OfframpStatus
pub mod RoundTrip
