-- ===== src/Compiler.antt =====
-- src/compiler.rs: `TaskInfo::compile`, which flattens tasks into atoms with an order.
pub mod Sets
pub mod Boundary
pub mod Links
pub mod Flatten
pub mod Compile
pub mod Outcomes
pub mod Adds
pub mod Declared
pub mod Order
pub mod Numbers
pub mod Tasks
pub mod Picking
pub mod Picks
pub mod Steps
pub mod Yields
pub mod Described
pub mod Settled
pub mod Walked
pub mod Passed
pub mod Ordered
pub mod Ends
pub mod Build
pub mod Popped
pub mod Loops
pub mod Visits
pub mod Built
pub mod Contracted
pub mod Finished
pub mod Atoms
pub mod Returns
pub mod Mirror
pub mod Forward
pub mod Collect
pub mod Setup
pub mod Proper
mod Tests
