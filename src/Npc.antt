-- ===== src/Npc.antt =====
-- controllers/network-policy-controller: the controller that turns network policies on logical
-- networks into iptables chains.
pub mod World
pub mod Chains
pub mod Policies
pub mod NetworkHandlers
pub mod PolicyHandlers
pub mod Sync
pub mod Events
pub mod Start
pub mod Signals
pub mod Main
pub mod Frame
pub mod Kernel
mod Tests
mod Examples
mod EventExamples
mod RuleExamples
mod StartExamples
mod MainExamples
mod PolicyExamples
mod RemovalExamples
mod UpdateExamples
mod NetworkExamples
mod RunExamples
