-- ===== src/Lib.antt =====
-- A model of zju-portal-core, a client of an aTrust VPN in Go, and proofs about it.
--
-- The program keeps VPN sessions. `core/` has the words all parts share: error values with codes, the
-- states of a session, and authentication challenges. A session (internal/atrustruntime) drives
-- `client/atrust`, which sets up TCP tunnels and one layer 3 tunnel to the portal. `dial/` chooses for
-- each connection between the VPN and the internet, and internal/networkruntime runs the TUN device,
-- for which it invents addresses that stand for domain names.
--
-- Files:
-- * Core/Error models core/error.go, Core/State core/state.go and Core/Auth core/auth.go; Core/State/Paths
--   and Core/Auth/Choices have the proofs.
-- * Stream models the readers and slices that the tunnels use: a Go panic on an index out of range is
--   the value `fault`.
-- * L3Tunnel/DataPayload models `buildDataPayload`, `parseDataPayload` and `readDataRespPayload` of
--   client/atrust/l3tunnelconn.go; L3Tunnel/Conntrack models client/atrust/l3tunnelconntrack.go, one function
--   per method, with the mutex as the atomicity of each; L3Tunnel/Filter models client/atrust/l3tunnelpacket.go
--   on the headers of Packet, which models internal/zctcpip.
-- * Resource models the resources of client/client.go. Dial models dial/router.go, the admission test of
--   dial/vpn_outbound.go and `tcpResourceFor` of client/atrust/tcptunnel.go.
-- * FakeIp models internal/networkruntime/tun_fakeip.go, one function per method.
-- * Config models core/config.go; Manager models manager/manager.go with the sessions that it runs as an
--   interface, Manager/AuthBroker its broker of authentication challenges, Manager/RuntimeConfig
--   `toRuntimeConfig`.
-- * Session models internal/atrustruntime/session.go: the state, the events and the handlers; Session/Lifecycle
--   its start, reconnection and close, with what runtimes and networks answer as arguments.
--   Session/Resume models internal/atrustruntime/resume.go.
-- * TcpTunnel models client/atrust/tcptunnel.go: the wait for the portal's answers, the framing of Read and
--   Write; TcpTunnel/Setup has `DialTCP` and `establishTCPConnection`. The loop of `waitForTCPConnect` is
--   recursion on the stream; that of Read takes the length of the stream as fuel, of which each round
--   uses at least two.
-- * L3Tunnel/Frames models `readFrame` of client/atrust/l3tunnelconn.go, L3Tunnel/Connection the read loop
--   with what it does for each frame, and how a connection fails and closes, L3Tunnel/Request
--   `buildAuthRequest`, and L3Tunnel/Sending `WritePacket`. L3Tunnel/Pool models client/atrust/l3tunnel.go and
--   `writePacket` of l3tunnelpacket.go: what other goroutines do between two critical sections is a
--   function from pool to pool. Stream/Meets is a calculus for chains of reads.
-- * Resolve models resolve/resolver.go and resolve/cache.go: Resolve/Keeping and Resolve/Permanent are about
--   static entries, Resolve/Lookups about the order of the servers. The loop of `Resolve` is recursion on the
--   rounds that the group of lookups gives it; as a function it is a call during which nothing else
--   changes the resolver. In the runs of Resolve/Permanent a lookup may begin at any time before it ends; runs in
--   which its host has got a static address meanwhile, which it then overwrites, are left out.
-- * Control models control/v1/service.go: the subscribers as channels with what was read and what is buffered,
--   and the challenges that wait. Control/Channels and Control/Delivery are about what a subscriber gets,
--   Control/Pending and Control/Waiting about the challenges. Control/Calls models `Call` and `handleLine` of
--   control/v1/server.go, with the manager as an interface. Control/Rest models control/rest/server.go on top of
--   it: Control/Rest/Guarded and Control/Rest/Reading are about what reaches the manager, Control/Rest/Served about
--   the replies.
-- * DnsMessage models internal/dnsmessage/handler.go; DnsMessage/Answers is about the replies. The state
--   behind the resolver and the fake IP store is a parameter that every lookup passes on.
-- * Tracker models the table of the inbounds' connections in internal/networkruntime/tracker.go and
--   Tracker/Outbound its counting outbound; the numbers of connections do not wrap, the byte counters do.
-- * DaemonConfig has the records of daemonconfig/config.go, DaemonConfig/Validate its `Validate`, `CoreConfig`
--   and `SecurityWarnings`; Base/Integers has the integers for Go's `int` and `time.Duration`.
--   DaemonConfig/Changes models `Changes` of daemonconfig/lifecycle.go and DaemonConfig/Merge its `MergeJSON`.
-- * DaemonRuntime models daemonruntime/controller.go: DaemonRuntime/Steps is about every run of its operations,
--   DaemonRuntime/Applied about what setting and applying a configuration leave alone. Revisions do not wrap.
-- * Tests has runs of the models at concrete inputs. Base has the maps, lists and tests that all share.
--
-- Pointers: a `*conntrack` is known by its authentication ID and a `*fakeIPEntry` by its address, and the
-- objects stand in a store, so that two maps that share an object share its changes. Maps are association
-- lists in which a key stands once; a loop over a map takes its entries in order, one of the orders that
-- Go may choose. The 64-bit counter of authentication IDs is taken as unbounded: it does not wrap in any
-- run of the program. The loop of `cleanup` that evicts takes as fuel the number of entries, of which each
-- round removes one. Times are nanoseconds.
--
-- Not modelled: cryptography, HTTP and HTML of the portal, TUN devices, routes, system DNS, log output, and
-- the goroutines themselves: concurrency appears as sequences of calls that hold the lock.
pub mod Base
pub mod Config
pub mod Control
pub mod Core
pub mod DaemonConfig
pub mod DaemonRuntime
pub mod Dial
pub mod DnsMessage
pub mod FakeIp
pub mod L3Tunnel
pub mod Manager
pub mod Packet
pub mod Resolve
pub mod Resource
pub mod Session
pub mod Stream
pub mod TcpTunnel
pub mod Tests
pub mod Tracker
