-- ===== src/Genie.antt =====
-- genie/, plugins/ and cni-genie.go: the CNI plugin that calls the plugins a pod asks for.
pub mod Host
pub mod Args
pub mod Conf
pub mod Networks
pub mod Bandwidth
pub mod Selection
pub mod MultiIp
pub mod Pod
pub mod Command
pub mod CniAnnotation
pub mod AddCommand
pub mod Interfaces
pub mod NamedPlugins
pub mod Memory
pub mod PodNetworks
pub mod Released
pub mod PluginCalls
pub mod LeastUsed
pub mod LeastPlugin
pub mod FoundConf
mod Tests
mod TrafficTests
mod CommandTests
