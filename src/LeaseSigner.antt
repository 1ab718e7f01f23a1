-- ===== src/LeaseSigner.antt =====
-- Lease tokens, and the calls that check them: internal/infra/lease and internal/app/service.go.
pub mod Token
pub mod RoundTrip
pub mod Sound
pub mod Service
