-- ===== src/Kernel.antt =====
-- The execution kernel (kernel/).
pub mod States
pub mod Errors
pub mod Tenant
pub mod Isolation
pub mod Metrics
pub mod Budget
pub mod Values
pub mod Contracts
pub mod Runtime
pub mod Events
pub mod Publisher
pub mod Streams
pub mod Factory
pub mod Loop
pub mod Tools
pub mod Gateway
pub mod Execution
pub mod Tests
