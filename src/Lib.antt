-- ===== src/Lib.antt =====
-- The CNI plugin for Amazon VPC (amazon-vpc-cni-k8s): the daemon ipamd, which keeps a warm pool of
-- VPC addresses on a node, and the plugin that asks it for a pod's address.
--
-- The parts, and where they are modelled:
--   * ipamd/datastore/data_store.go, the store of ENIs, addresses and pods: Datastore. The types are
--     in Datastore/Types, AddENI, AddIPv4AddressFromStore and DelIPv4AddressFromStore in
--     Datastore/Addresses, AssignPodIPv4Address and UnassignPodIPv4Address in Datastore/Assign, the
--     methods that choose or remove an ENI in Datastore/Enis, the reports in Datastore/Infos.
--   * ipamd/ipamd.go, the daemon: Ipamd. The settings are in Ipamd/Config, the marks of the pool in
--     Ipamd/Targets, ReconcileCooldownCache in Ipamd/Cooldown, setupENI and waitENIAttached in
--     Ipamd/Setup, decreaseIPPool and tryFreeENI in Ipamd/Shrink, increaseIPPool and
--     updateIPPoolIfRequired in Ipamd/Grow, nodeIPPoolReconcile in Ipamd/Reconcile, nodeInit and
--     the loop of StartNodeIPPoolManager in Ipamd/Init.
--   * ipamd/rpc_handler.go, AddNetwork and DelNetwork: Ipamd/Rpc.
--   * plugins/routed-eni/cni.go, the plugin's add and del: Plugin.
--   * pkg/awsutils/vpc_ip_resource_limit.go and awsutils.go, the client of EC2 and of the metadata
--     service: Awsutils. The tables of the instance types are in Awsutils/Enis and Awsutils/Ips, the
--     limits in Awsutils/InstanceType, the cache and the calls in Awsutils/Client,
--     initWithEC2Metadata and GetAttachedENIs in Awsutils/Metadata, DescribeENI, freeENI and
--     deleteENI in Awsutils/Release, AllocENI and AllocIPAddresses in Awsutils/Alloc.
--   * pkg/networkutils/network.go, the network of the node: Networkutils. The settings are in
--     Networkutils/Settings, the rules by source in Networkutils/RuleList, setupENINetwork in
--     Networkutils/EniNetwork, the iptables rules in Networkutils/IptablesRules, SetupHostNetwork
--     in Networkutils/HostNetwork.
--   * plugins/routed-eni/driver/driver.go, setupNS and tearDownNS: Driver.
--   * pkg/netlinkwrapper/netlink.go, what both call: Netlink.
--   * ipamd/introspect.go, what the daemon tells over HTTP: Introspect.
--   * pkg/k8sapi/discovery.go, the controller that keeps the pods of the node: K8sapi.
--   * pkg/eniconfig/eniconfig.go, the ENIConfigs and the one this node uses: Eniconfig.
--   * cni-metrics-helper/metrics/metrics.go and cni_metrics.go, the polls of the daemons' metrics:
--     Metrics. The points and the counters are in Metrics/Points, the histograms in
--     Metrics/Buckets, a family of metrics in Metrics/Families, a poll and the daemons' target in
--     Metrics/Poll.
--   * pkg/publisher/publisher.go, the requests to CloudWatch, and GetClusterTag of
--     pkg/ec2wrapper/ec2wrapper.go: Publisher.
-- The plugin calls the daemon's RPC handler and the driver, the handler and the daemon's loop call
-- the store's methods, and the daemon calls EC2, the metadata service, the host network and the
-- cluster. The metrics helper is a program of its own: it asks the pods that the discovery lists and
-- hands its data to the publisher.
--
-- A function of the source keeps its name, in snake case: nodeIPPoolTooLow is
-- node_ip_pool_too_low. A loop or a part of a long function is a helper with a name of its own.
-- A method of the store is a function from the store, and the reading of the clock that it makes,
-- to the store and a result; the lock makes it one step. A method of the daemon is a function of
-- the monad M, which passes the daemon's state on. What the daemon calls is the record Env, which
-- acts on a world left open; the plugin's calls are the record Host. The methods of the other
-- packages are functions of Prelude/Actions, which answer, fail or panic, over the records Ec2,
-- NetLink, Iptables, NodeHost and Namespaces of what they call.
--
-- Conventions:
--   * Go's int is the integers, without the wrap at 64 bits: the counters count what is in memory.
--     The conversion of the device number to int32 keeps its wrap.
--   * A time.Time is the number of nanoseconds since the zero time; Sub saturates as in Go.
--   * A map is an association list whose keys are distinct. A range over a map visits the entries
--     in the order of the list; the theorems hold for lists in any order. An entry that is changed
--     through a pointer is written back under its key.
--   * A store method that reads the clock more than once has one reading for all of them.
--   * The Prometheus gauges of the store are modelled; logging and the counters are not.
--   * Loops over lists are structural recursion. The attempts of nodeInit and waitENIAttached and of
--     getLocalPodsWithRetry, those to delete or detach an ENI, to find a link and to add a route are
--     counted down from the source's limits, so no fuel is added. The
--     endless loop of StartNodeIPPoolManager is any number of its rounds.
--   * A nil dereference is a result of its own: the error nil_dereference of the store, the outcome
--     panics of the plugin, the answer crashed elsewhere.
--   * An error of a netlink call is one of the kernel's numbers that the code tells apart, or any
--     other; errors.Wrap makes it one of the others, as in the source, where a wrapped number is not
--     recognised.
--   * A slice of the publisher is its elements and the number of nil entries that its array has after
--     them; the capacity that append chooses for a new array is a parameter. Floats are the
--     record Float of the operations that the metrics helper uses; the theorems name the laws that
--     they need of them.
--   * The events that a controller has handled are a list, the latest first.
--
-- Two words of the results. A store is valid (Datastore/Invariant) when no map has a key twice, each
-- entry knows its key, each ENI's counter is the number of its assigned addresses, and the store's
-- two counters are the sums over its ENIs. A valid store is backed (Datastore/Ownership, IsBacked)
-- when no address is the empty string and each address is held by as many pods as there are ENIs
-- on which it is marked as assigned.
--
-- What is relied on of the kernel and of iptables is stated once, as records of hypotheses:
-- KeepsRules (Netlink/Kernel) for the table of routing rules and KeepsTables (Networkutils/Tables)
-- for the tables of iptables; NamesRules (Driver/SetupRules) adds what a deletion asks for.
-- Each has a small concrete instance that shows it can hold.
--
-- Prelude has the shared tests, lists, maps, integers and times, and the lemmas on them.
--
-- Not modelled: the session of the EC2 client (New of awsutils.go); the Kubernetes clients, the
-- informer and the work queue, which are parameters; the gRPC and HTTP servers
-- themselves, and the ticker of the publisher, which only calls pushLocal; pkg/utils, a copy of the
-- ECS agent's; the parser of the metrics' text format, and the HTTP request to a pod; the daemon
-- and the plugin run against their records of calls, not against the modules that model EC2, the
-- host network and the driver; and calls of the daemon's loop and of the RPC handler that interleave,
-- except that any sequence of the store's methods is covered by Datastore/History.
pub mod Prelude
pub mod Datastore
pub mod Awsutils
pub mod Netlink
pub mod Networkutils
pub mod Ipamd
pub mod Driver
pub mod Plugin
pub mod K8sapi
pub mod Eniconfig
pub mod Publisher
pub mod Metrics
pub mod Introspect
