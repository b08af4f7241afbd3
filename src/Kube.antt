-- ===== src/Kube.antt =====
-- The Kubernetes objects and the client library, as far as the operator uses them. Their code is not
-- part of the repository: the objects are data, and the functions are parameters.
pub mod Meta
pub mod Core
pub mod Dynamic
pub mod Configuration
pub mod Client
pub mod Conditions
