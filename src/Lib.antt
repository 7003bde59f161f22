-- ===== src/Lib.antt =====
-- CNI-Genie: a CNI plugin that connects a pod through the plugins its annotations name, and a
-- controller that turns network policies on logical networks into iptables chains.
--
-- The plugin (cni-genie.go, genie/, plugins/, utils/) is started once for each pod. `cmdAdd` and
-- `cmdDel` read the configuration and the pod's annotations, choose the plugins ("cni" annotation,
-- "networks" annotation with logical and physical networks, or the network with the least traffic
-- by cAdvisor), and call each plugin through libcni.
-- - Types: the structs of utils/types.go, with the fields that the program reads.
-- - Genie.Host: what the plugin calls and does not implement (libcni, the Kubernetes client, JSON,
--   files, HTTP, the shell), as a record whose operations change a state and may fail.
-- - Genie.Args: PopulateCNIArgs, ParseCNIConf, GetKubeClient, loadArgs, getIdentifiers, runtimeConf
--   and defaultPlugin of genie/genie-controller.go.
-- - Genie.Conf: ParseCNIConfFromFile, the default configurations (plugins/), addNetwork and
--   deleteNetwork.
-- - Genie.Networks: genie/genie-crd-processor.go. Genie.Bandwidth: genie/genie-cadvisor-client.go
--   and utils/sort-map-values.go. Genie.Selection: parseCNIAnnotations and the readers of a pod's
--   annotations. Genie.MultiIp: UpdatePodDefinition. Genie.Pod: AddPodNetwork and DeletePodNetwork.
--   Genie.Command: cni-genie.go.
-- - Genie.Interfaces, Genie.NamedPlugins, Genie.PluginCalls, Genie.PodNetworks, Genie.Released,
--   Genie.CniAnnotation, Genie.AddCommand, Genie.LeastUsed, Genie.LeastPlugin, Genie.FoundConf and
--   the children of Genie.MultiIp hold theorems; Genie.Memory is an in-memory host for Genie.Tests,
--   Genie.CommandTests and Genie.TrafficTests.
--
-- The controller (controllers/network-policy-controller/) keeps one iptables chain for each policy,
-- one for each logical network that a policy selects, and a base chain with two rules for each such
-- network. Informers add keys to a queue, and workers handle the keys one at a time under a mutex.
-- - Npc.World: what the controller calls and does not implement (go-iptables, the listers, JSON and
--   MD5), as a record in the same form.
-- - Npc.Chains: iptables/iptables.go. Npc.Policies: the annotation and ListNetworkPolicies.
--   Npc.NetworkHandlers and Npc.PolicyHandlers: the six handlers. Npc.Sync: syncHandler, worker and
--   Run. Npc.Events: the informers' handlers and the queue's keys. Npc.Start: NewNpcController.
--   Npc.Main: main.go; the goroutines that it and SetupSignalHandler start are listed, those of the
--   factories with what they start.
--   Npc.Signals: signals/signal.go, with the goroutine's receives and the arriving signals as steps
--   (Npc.Signals.Steps).
-- - The children of Npc.Chains, Npc.Policies, Npc.NetworkHandlers, Npc.PolicyHandlers, Npc.Sync and
--   Npc.Main, Npc.Frame with its children, Npc.Events.Delivery and Npc.Start.Registered hold
--   theorems. Npc.Chains.Iptables states what iptables documents; which rules iptables accepts is a
--   parameter there. Npc.Kernel is an in-memory filter table with these laws (Npc.Kernel.Laws,
--   Npc.Kernel.Rules), in which Npc.Tests, Npc.Examples, Npc.EventExamples, Npc.RuleExamples,
--   Npc.PolicyExamples, Npc.RemovalExamples, Npc.UpdateExamples, Npc.NetworkExamples,
--   Npc.RunExamples, Npc.StartExamples and Npc.MainExamples run the controller.
--
-- The client of logical networks (controllers/logicalnetwork-pkg/) is generated code over client-go,
-- from which the controller has its informer and its lister.
-- - Client.Library: what the client calls of client-go, as a record in the same form.
-- - Client.Requests: the typed client and the clientset. Client.Factory:
--   informers/externalversions/factory.go. Client.Informers: the informer of logical networks and
--   the way to it. Client.Lister: listers/network/v1/logicalnetwork.go.
--   Client.Copies: utils/logicalnetwork.deepcopy.go, on a heap.
-- - The children of Client.Factory, Client.Lister and Client.Copies hold theorems; Client.Memory is
--   a library in which informers are numbered, for Client.Tests, Npc.StartExamples and
--   Npc.MainExamples.
--
-- Base has Go's strings as bytes, its maps as association lists, and its functions that act on a
-- state, return an error or panic: an error or a panic keeps the state that was reached.
--
-- Loops over slices are recursion on the list. The search for a free interface name has fuel, one
-- more than the names given out: among that many names one is free. A loop over a map takes the
-- order of its keys, from a parameter or as an argument. Widths of integers are written
-- out where the code depends on them (the counters of cAdvisor, the index in an interface's name).
--
-- Not modelled: log output, events and the texts of messages; the mutex and the queue's own
-- bookkeeping (keys come in the order in which workers handle them); the registration of types with
-- a scheme; the goroutine's lock on its thread (genie/genie-monitor.go).
pub mod Base
pub mod Types
pub mod Client
pub mod Npc
pub mod Genie
