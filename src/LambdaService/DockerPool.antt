-- ===== src/LambdaService/DockerPool.antt =====
-- services/lambda-service/internal/pool/docker_pool.go. The Docker daemon is not modelled: an
-- operation takes the daemon's answers as arguments and returns the requests that it makes. The
-- idle channel is the list of the containers in its buffer. What the source starts with `go`
-- becomes a task that runs later, in any order.
pub mod Create
pub mod Lease
pub mod Lifecycle
pub mod Run
pub mod Invariant
pub mod History
pub mod Held
pub mod Balance
pub mod Books
pub mod Conservation
pub mod Filling
mod Tests
