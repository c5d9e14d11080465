-- ===== src/Lib.antt =====
-- The dynamic-prefix-operator: it acquires an IPv6 prefix by DHCPv6 prefix delegation or from Router
-- Advertisements, follows it as it is renewed, replaced or lost, and carves addresses out of it.
--
-- Parts, each with the file of the code and the module that models it:
--   internal/prefix/types.go, health.go: Types (Prefix, Event, EventType, healthTracker) and Receiver,
--     the interface that the receivers implement, with the laws its clients rely on.
--   internal/prefix/policy.go, validate.go: Policy (ValidateDelegatedPrefix, Policy.Validate,
--     RAPolicy.Trusts, ParseTrustedRouters), with the three ways in which a spec becomes a policy:
--     policyFromSpec of factory.go, prefixPolicyFor of internal/controller/dynamicprefix_controller.go
--     and the accessors of api/v1alpha1/dynamicprefix_types.go.
--   internal/prefix/dhcpv6pd_receiver.go: Dhcpv6. Message has the decoded messages, the state and the
--     small operations; Backoff the pace; Reply processIAPDReply; Exchange acquirePrefix, renewPrefix
--     and rebindPrefix; Loop runLoop.
--   internal/prefix/ra_receiver.go: Ra (Start, Stop, rejectRouterAdvertisement,
--     handleRouterAdvertisement, updatePrefix, expireLeaseIfStale, receiveLoop).
--   internal/prefix/composite_receiver.go: Composite, over any two receivers; Receivers instantiates
--     the interface with the two above.
--   internal/prefix/subnet.go: Subnet (CalculateSubnets, CalculateSubnet, ValidateSubnetFitsInPrefix).
--   internal/prefix/shared_ra_receiver.go: Shared (the entry behind the subscriptions of one interface).
--   internal/prefix/factory.go: Factory (CreateReceiver and what it calls, with the claims of interfaces).
--   internal/controller/ownership.go, ownedlist.go: Ownership (the records, syncOwnedList, excludePinned,
--     dedupePreservingOrder), over any parser and printer of addresses; Texts models the texts.
--   internal/controller/dynamicprefix_controller.go: History (handlePrefixChange as Reconcile calls it).
--   internal/prefix/addressrange.go: AddressRange (CalculateAddressRanges, RangeToCIDR, AddressCount).
--     Bytes has the 16 bytes of an address, which it and the next file loop over.
--   internal/controller/servicesync_controller.go: ServiceSync (addressesForService and the modes it
--     chooses from, combinePrefixSuffix, calculateIPOffset, applyIPOffset) over AddressRange, Subnet and
--     History; ServiceLists (preserveUnownedIPs, writeLBAddresses, releaseService and what Reconcile does
--     between them) over Ownership. Resource has the fields of a DynamicPrefix that are read
--     (api/v1alpha1) and what poolsync_controller.go and poolsync_backends.go compute from them for both.
--   internal/controller/poolsync_controller.go: PoolSync (buildPoolConfigurations).
--   internal/controller/poolsync_backends.go: PoolBackends (the updates of the Cilium and MetalLB
--     backends, calicoCIDRForConfig, isManagedBlock, addressRangeWithinManaged, releaseRecordedSlice),
--     with blockKey of ownership.go. It writes through Ownership, whose lists it shares with the users.
--   internal/controller/crowdsec_controller.go: CrowdSec (crowdsecTrustedPrefixes, sync).
--   internal/controller/dynamicprefix_controller.go, rarejections.go: Reconciler, one pass of Reconcile
--     over a resource. Given has what the reconciler is given, Held the maps of receivers with what they
--     hold for one name, Derived what is calculated from a prefix, Stored the status and its write. It is
--     over any receiver and factory with the laws of Receiver, and uses Policy, History, Subnet and
--     AddressRange as the code does. Requests to the Kubernetes API are arguments of a pass (Cluster,
--     Found): a theorem about passes holds for all that they may find and however they fail.
--   internal/controller/conditions_apply.go: Conditions, with setCondition and warnOnConditionChange.
--     The list of conditions is an interface with the documented behaviour of SetStatusCondition.
--   internal/controller/bgpsync_controller.go: BgpSync (Reconcile), over Conditions; the name of an
--     advertisement is shared with Reconciler, which publishes it.
--   internal/controller/poolsync_condition.go: PoolState (record, forgetEntries, conditionFor and the
--     write of the condition).
-- Net models what the code uses of net/netip: an address is a kind, which carries an IPv6 zone, and a
-- value below 2 ^ 32 or 2 ^ 128; a prefix carries its length plus one, as netip.Prefix does.
--
-- Representation: a Go struct is a record, an operation under its lock is a function from the state to
-- the next one, and errors are values. `int`, `int64` and time.Duration are integers, wrapped to 64
-- bits where arithmetic on them is done; times are integers of nanoseconds, and
-- what the API stores of a time is a parameter, since metav1.Time keeps whole seconds. A buffered event channel is
-- the list of events waiting, and a send that does not block drops the event when ten wait. What the
-- clock, the random draw, the network, the servers and the sockets do stands in arguments (Network,
-- Round, StartEnv, Input), so each theorem about a run holds for all they may do. runLoop is a run over
-- the list of its rounds: each iteration takes one, so there is no fuel to run out of; a list that ends
-- is a run looked at between two iterations.
--
-- Not modelled: of shared_ra_receiver.go the pool of entries and the fan-out of events; the loop of
-- router solicitations, which only writes to the socket; logging, metrics and the watches that start
-- a pass; the dhcpv6 and ndp packages' coding of messages; of poolsync_backends.go the draining siblings
-- of a Calico pool, and kubevip_backend.go; of servicesync_controller.go the target for external-dns and
-- the guards of Reconcile; ciliuml2nudge.go and ciliumversions.go; the HTTP client of crowdsec_lapi.go;
-- cmd/main.go, which wires the Kubernetes libraries; generated code.
pub mod Prelude
pub mod Net
pub mod Types
pub mod Policy
pub mod Subnet
pub mod Receiver
pub mod Dhcpv6
pub mod Ra
pub mod Receivers
pub mod Composite
pub mod Ownership
pub mod History
pub mod Factory
pub mod Shared
pub mod Bytes
pub mod AddressRange
pub mod Resource
pub mod ServiceSync
pub mod PoolSync
pub mod PoolBackends
pub mod ServiceLists
pub mod CrowdSec
pub mod Conditions
pub mod Reconciler
pub mod BgpSync
pub mod PoolState
