-- ===== src/Lib.antt =====
-- The core of netd, the network daemon of Android: which networks there are, which user may use
-- which of them, how the sockets of an app are marked and routed, and which interfaces the
-- firewall lets through, as the C++ of server/, client/ and include/ has it.
--
-- The parts and how they interact. NetworkController (server/NetworkController.cpp) owns the map
-- of networks by netId, the default network, the permissions of users and the addresses of
-- interfaces. Each network is an object of a class below Network (server/Network.cpp,
-- PhysicalNetwork.cpp, VirtualNetwork.cpp, LocalNetwork.cpp, UnreachableNetwork.cpp,
-- DummyNetwork.cpp) with its interfaces and, by sub-priority, its UID ranges
-- (server/UidRanges.cpp). The objects call RouteController, which changes the routing rules of
-- the kernel. FwmarkServer (server/FwmarkServer.cpp) receives the sockets of clients, asks the
-- controller, and writes the mark (include/Fwmark.h) that the rules read. The clients are the
-- apps, in which client/NetdClient.cpp takes the place of the calls on sockets.
--
-- The files:
--   Prelude, Containers: shared helpers: tests on numbers, signed integers, keys, operations that
--     return an errno (Prelude/Steps), std::map and std::set as lists in order.
--   UidRanges: sets of UIDs; Membership, Overlap, Changes, Counts and Hidden are proofs; Parse is
--     parseFrom with the strtoul of C, Parse/Spelled what an argument spells, and Parse/Accepted
--     what it accepts.
--   NetHandle: the conversions between netIds and handles of server/NetworkController.h.
--   Errno, Fwmark: errno values; the mark and the permission bits of include/Permission.h.
--   Platform: what NetworkController calls, as records of functions.
--   Network: the state of a network and the helpers of Network.cpp. Network/Physical and
--     Network/Simple are the classes, Network/Dispatch the virtual methods; Interfaces, Users,
--     RangeMap and Held are proofs.
--   Controller: the state and the queries; Access is checkUserNetworkAccessLocked; Selection is
--     getNetworkForUser, getNetworkForConnect, getNetworkForDns and getNetworkContext; Lifecycle
--     is setDefaultNetwork and the creation of networks; Changes is destroyNetwork and the
--     changes of interfaces, users and permissions; Requests is the permissions of users, the
--     allowlist and modifyRoute; Addresses is addInterfaceAddress and removeInterfaceAddress.
--     Their child modules are proofs. Invariant is a history of calls, and what every history
--     keeps.
--   FwmarkServer: the commands; Process is processClient and onDataAvailable; Marks and Queries
--     are proofs.
--   Client: send of client/FwmarkClient.cpp and the checks of sockets. Client/Shims is what
--     client/NetdClient.cpp does in place of accept4, connect, socket and the calls that send,
--     Client/Process the networks that a process chooses and the other commands, Client/Dns the
--     queries over the socket of the resolver, and Client/Answers what it answers. Client/Served
--     puts the server of FwmarkServer at the other end of the channel; Granted, Guarded and
--     Answers/Read are proofs.
--   RouteTables: the map of server/RouteController.cpp from interfaces to routing tables, with
--     the lookup, getIfIndex and flushRoutes; Kept and Flushed are proofs.
--   Routing: the rules and routes of server/RouteController.cpp, and the request for one rule.
--     Its children: Priorities, Rules and UidRules are the rules that each function builds;
--     Networks is modifyPhysicalNetwork, modifyVirtualNetwork and the other loops; Prefix is
--     parsePrefix of server/NetdConstants.cpp; Routes is modifyIpRoute and modifyRoute,
--     LocalRoutes addRoute and which routes are local; Upkeep is the clean-up of tethering and
--     the names of the tables; Api is the public functions, and Api/Instance fills the record
--     Platform.RouteController, the interface that NetworkController takes, with them. Match says
--     which packets a rule matches, Built lists the rules that netd builds, Plans the rules of a
--     network in order, each on its own and independent of the code; Matched, Lockdown,
--     Lockdown/Sockets, Explicit, Covered, Planned, Performed, Parts, Refined, Counted, Undone,
--     Routes/Proper, Routes/Asked, Prefix/Read, Prefix/Complete, Ranked and Api/Tethering are
--     proofs.
--   Firewall: server/FirewallController.cpp and isIfaceName of server/NetdConstants.cpp; Mirror
--     relates its fields to the chains of the kernel.
--   Tests: a system, a history of calls, and the theorems applied to it.
--
-- How the state corresponds. An `int` that is 0 or a negative errno is a number, 0 or the errno,
-- with the state that the call leaves (Prelude/Steps); `if (int ret = f()) return ret;` is `>>`.
-- A class below Network is a constructor of Network.Kind with the fields that it adds. A pointer
-- to a network is the netId of the object in the map, since the map owns it. The unordered maps
-- are kept in order of their keys. `W` is the state of everything else, which each call into
-- RouteController, SockDiag or the resolver may change; Platform and FwmarkServer.Sockets are the
-- records of those calls, with nothing assumed of them: each may fail at any time.
--
-- Bounds and fuel. Numbers are natural numbers; netIds, UIDs and marks are 32-bit words, the
-- fields of a mark are cut to their widths (Fwmark.int_value), a UID that is no int32_t is in no
-- range (UidRanges.has_uid). The loop of clearInterfaces has the number of interfaces for its
-- fuel, which is enough as each round that does not return takes one off. The loop of
-- clearTetheringRules has one round more than the kernel has rules with its priority, which is
-- enough where each deletion leaves one rule less. The loop of readData has one round more than
-- there are bytes to read, each of which reads at least one. The search for an OEM netId has one
-- round for each netId. The loops over containers are recursion on them.
--
-- The kernel and libraries. Routing.Netlink and RouteTables.Kernel are the requests and questions
-- to the kernel: a rule, the flushes of server/NetlinkCommands.cpp, the iptables command, the
-- queueing discipline of an interface, the name of an interface. Routing.Routes.Texts is
-- getaddrinfo and inet_pton of libc and IPPrefix of libnetdutils. Only the theorems that say so
-- assume something of them: Counted.KeepsCounts is a kernel that counts the requests it accepts
-- and deletes what it has, Api.Tethering.Shrinks a kernel in which a deletion leaves one rule
-- less, Firewall.Mirror.Obeys an iptables that does what it is told if it succeeds,
-- Client.Answers.Read.Streams a socket that gives its bytes in order, Client.Granted.HasErrors a
-- kernel whose errno is not 0.
--
-- Not modelled: the reader-writer lock, for which each method is one step; logs and dumps; the
-- clean-up of queueing disciplines in the constructor of NetworkController; isSystemServer, which
-- nothing calls; the bytes of netlink messages, whose attributes the requests are; the pointers
-- to functions that NetdClient.cpp stores, and resNetworkQuery. The bandwidth, tethering and
-- IPsec controllers and the front ends are other parts of the repository that this library does
-- not cover.
pub mod Prelude
pub mod Containers
pub mod UidRanges
pub mod Errno
pub mod Fwmark
pub mod Platform
pub mod Network
pub mod NetHandle
pub mod Controller
pub mod FwmarkServer
pub mod Client
pub mod RouteTables
pub mod Routing
pub mod Firewall
pub mod Tests
