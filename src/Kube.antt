-- ===== src/Kube.antt =====
-- What the agent's code sees of Kubernetes and of controller-runtime: errors, objects, reads of
-- the cluster, admission requests and responses. None of this is the agent's own code: of each
-- object only the fields that the agent reads are kept, and every call is a parameter.
mod Errors
mod Objects
mod Reads
mod Libraries
mod Decimals
mod Admission
mod Api
pub mod Memory
pub use Errors.*
pub use Objects.*
pub use Reads.*
pub use Decimals.*
pub use Libraries.*
pub use Admission.*
pub use Api.*
