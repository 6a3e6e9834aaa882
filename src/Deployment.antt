-- ===== src/Deployment.antt =====
-- The deployment layer of src/spy_der/deployment: manifests, the pointer to the one in force, promotion
-- and the cutover between the two systems.
pub mod Manifest
pub mod Pointer
pub mod Promotion
pub mod Agent
pub mod Cutover
pub mod Tests
