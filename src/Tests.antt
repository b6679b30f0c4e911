-- ===== src/Tests.antt =====
-- The models run on small inputs, and the theorems applied to them.
mod Store
mod Throttle
mod Enrolment
mod Entries
mod Bans
mod Loading
mod Metadata
mod Server
mod Starting
mod Csr
mod Proxmox
mod Bridgebind
mod Passes
mod Clusters
