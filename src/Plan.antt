-- ===== src/Plan.antt =====
-- build/plan.go: the plan of steps that wait, are ready or are queued, and the scheduler that fills it.
pub mod State
pub mod Count
pub mod Waking
pub mod Steps
pub mod Done
pub mod Run
pub mod Safety
pub mod Reach
pub mod Schedule
pub mod Targets
pub mod Unvisited
pub mod Termination
mod Samples
pub mod Account
pub mod Wiring
pub mod Adding
mod Linking
pub mod Marks
pub mod Scheduled
pub mod Filled
mod Tidy
mod Visits
mod Needs
mod Runs
