-- ===== src/Tests.antt =====
-- The theorems at concrete inputs, and runs of the definitions.
mod Kernel
mod Ceilings
mod Gate
mod Steps
mod Tickets
mod Run
mod Interrupted
mod Rounds
mod Ids
mod Graph
mod Retention
mod Skills
mod Proposals
mod Manifests
mod Refinement
