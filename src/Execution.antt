-- ===== src/Execution.antt =====
-- An execution of the program under test (execution.cc, execution.h): what the checker does with
-- each action of the program. The children hold the state, and the parts of `check_current_action`.
pub mod Candidates
pub mod Collect
pub mod Fences
pub mod Fuzz
pub mod Life
pub mod Lists
pub mod Locks
pub mod ReadOrder
pub mod Reads
pub mod Release
pub mod Sleepers
pub mod State
pub mod Step
mod Tests
pub mod WriteOrder
