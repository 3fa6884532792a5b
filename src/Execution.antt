-- ===== src/Execution.antt =====
-- One execution of a compiled set (execution_internal.go), with the delivery of its events
-- (observer_internal.go) and the group bookkeeping of group_result.go.
pub mod State
pub mod Observe
pub mod Calls
pub mod Outcome
pub mod Visit
pub mod Loop
pub mod Automaton
pub mod After
pub mod Refine
pub mod Visits
pub mod Runs
pub mod Loops
pub mod Whole
pub mod Moves
pub mod Induction
pub mod Steps
pub mod Counts
pub mod Endings
pub mod Stops
pub mod Records
pub mod Picks
pub mod Reports
