-- ===== src/Cluster.antt =====
-- What the operator uses of a Kubernetes cluster, as interfaces over the state of the world. Secrets
-- come with the laws of the API server that the proofs rely on; Cluster/Memory.antt meets them.
pub mod Secrets
pub mod Memory
pub mod Objects
