-- ===== src/Devid.antt =====
-- The enrolment of device identities, internal/devid.
pub mod Sessions
pub mod Files
pub mod Pins
pub mod Verify
pub mod Csr
pub mod Enroll
