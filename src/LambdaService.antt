-- ===== src/LambdaService.antt =====
-- services/lambda-service: the container pools, the events and the cache of functions.
pub mod Pool
pub mod DockerPool
pub mod KubernetesPool
pub mod Events
pub mod Cache
pub mod CodeStore
pub mod Registration
pub mod Invoke
pub mod PoolRegistry
pub mod Postgres
