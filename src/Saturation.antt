-- ===== src/Saturation.antt =====
-- src/pyelk/reasoning/saturation.py: the fixed-point scheduler, by its state and its loops.
pub mod Actions
pub mod Engine
pub mod Schedule
pub mod Recovery
pub mod Steady
pub mod Holds
pub mod Routing
pub mod Demand
pub mod Service
pub mod Products
pub mod Rounds
pub mod Run
pub mod Sound
pub mod Grows
pub mod Delivery
pub mod Arrival
pub mod Complete
pub mod Premises
pub mod Answers
pub mod Flags
pub mod Progress
pub mod Kept
pub mod Closure
pub mod Queries
pub mod Derives
