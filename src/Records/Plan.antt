-- ===== src/Records/Plan.antt =====
-- Plans and their routing, as afk_records/plan.py accepts them.
pub mod Shapes
pub mod Input
pub mod Graph
pub mod Quotes
pub mod Proposal
pub mod Build
pub mod Lists
pub mod Readiness
pub mod RoundTrip
pub mod Routing
pub mod Routes
pub mod Coverage
pub mod Planner
