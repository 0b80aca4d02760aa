-- ===== src/Lib.antt =====
-- A verification library for onramp, which gives Go programs listeners and dialers on I2P and Tor.
--
-- The parts of the program, and how they meet. The package hybrid2 sends datagrams to I2P destinations: for
-- each destination a `SenderState` decides whether a message goes as an authenticated datagram2 or as a
-- datagram3, which carries only a hash of its sender; at the other end a `ReceiverState` learns the
-- address of a hash from datagram2s and tells it for datagram3s. Datagram2s also carry ACK requests and
-- ACK responses. The package hybrid1 frames datagrams as i2pd does. Both keep their senders in a map
-- through internal/hybridcommon. onion.go counts the users of one shared Tor process and keeps the
-- `Onion`s of the package-level functions in a map. garlic.go opens one PRIMARY session for each `Garlic`,
-- and under it stream sessions for its listeners and dialers, one for each pair of virtual ports, and a
-- hybrid session for its packets. common.go chooses between the two by a hostname, and has the
-- directories in which the keys of both are kept; proxy.go passes connections on to either.
--
-- Which file models what. A function keeps the name of the source's, in lower case with underscores; a
-- record has the source's fields, less those that nothing reads and the handles of other libraries.
--   Hybrid2/Config, Sender, Receiver, Session: hybrid2/config.go, the types of hybrid2/types.go, the methods
--     of `SenderState` in hybrid2/sender.go, those of `ReceiverState` in hybrid2/receiver.go, and
--     hybrid2/session.go
--   Hybrid2/Wire, Send: the framing of ACKs and the sending calls of hybrid2/sender.go
--   Hybrid2/Receive: the receive loops of hybrid2/receiver.go
--   Hybrid2/Conn, Stats: `HybridPacketConn` and the path statistics of hybrid2/session.go
--   Hybrid2/Opening: the constructors and the round of `ackCleanupLoop` of hybrid2/session.go, with
--     `NewSessionFromSAM` of internal/hybridcommon/integration.go
--   Hybrid2/Running: the goroutines of a session, with the calls between their steps
--   Hybrid2/Delivery: a sender and a receiver's table on one path
--   Hybrid1/Frame, Session, Conn: hybrid1/packetconn.go, hybrid1/session.go
--   Hybridcommon/Maps: internal/hybridcommon/maps.go, and in Maps/Threads its interleavings
--   Onion, Onion/Refs, Onion/Managed: `getTor` and `Close` of onion.go, and the package-level functions over the map
--     `onions`; Onion/Races is about two threads in `getTor`; Onion/Calls: the methods of one `Onion`
--   Garlic/Ports: the virtual ports of garlic.go; Garlic/Sessions, Calls, Closing: what a `Garlic` opens,
--     its calls, `Close` and the constructor; Garlic/Histories: sequences of calls; Garlic/Managed: the
--     package-level functions of garlic.go, with the registry and the hooks of cleanup.go
--   Hybridcommon/Integration: internal/hybridcommon/integration.go, and the constructors and `Close` that
--     hybrid1/integration.go and hybrid2/integration.go have alike; Hybrid1/Opening and Hybrid2/Integration
--     apply them to the sessions of the two packages; Hybrid1/Integration: its calls that send and receive
--   Routing: `Dial`, `Listen` and `CloseAll` of common.go, over Garlic/Managed and Onion/Managed
--   Garlic/Naming, Listening: the ids and texts of a `Garlic`, and `Listen` and `ListenTLS`;
--     Garlic/Managed/Finalizers: the finalizers of cleanup.go
--   Keystore: the keystores of common.go; Keystore/I2p and Keystore/Onion: the keys of garlic.go and those
--     of onion.go
--   Tls: `CreateTLSCertificate` of tls.go and the files that it writes; Tls/Loading: `TLSKeys`; Tls/Names:
--     the names of a certificate
--   Embedded: garlic_sam_embed.go
--   Proxy: proxy.go, over Garlic and Onion
--   Prelude: Go's maps, byte order, clock and floats, and what the other files share; Samples and the
--     modules Tests apply the theorems to values
--
-- How it is modelled. State is passed explicitly and a call that can fail returns its error with the
-- state that it leaves. A uint64 is a natural number with its wrap-around written out, a map an
-- association list with each key once, and a channel a list with its capacity. A time is a number of
-- nanoseconds, 0 the zero time; a call that reads the clock several times takes the readings as a
-- function of their number. A method under a mutex is one step; methods of several goroutines are
-- modelled one at a time, but for Hybridcommon/Maps/Threads and Onion/Races, which interleave critical
-- sections, for Hybrid2/Running, whose steps are the rounds of a session's loops and the calls of
-- the application, and for a `select`, whose choice is an argument or a relation. A loop over a list is a
-- recursion over it. Two recursions take fuel: the wait for a bridge, whose fuel of one round more than
-- the intervals of its timeout is shown to be enough, and the printing of a number, which gets one more
-- than the number. A panic is `none` or an error of its own, and so is the end of the program by which
-- `runtime.SetFinalizer` answers where a finalizer is set.
--
-- Parameters: `Keys` is the library i2pkeys and SHA-256, `Floats` the float64 arithmetic, `net` and
-- `Network` what the SAM library answers to a packet, `resolve` its `ResolveSource`; what `tor.Start`
-- gives, which may be a Tor beside an error, and whether Tor stops are arguments. For a `Garlic`,
-- `Outside` is what the SAM library answers to each kind of request, whether there are keys, and the
-- random number; `lookup_port` is
-- `net.LookupPort`, and `Library` adds the hostname that net/url reads; `Closes` is which sessions close
-- without an error. What the library has open is a list of handles: a PRIMARY session takes with it what
-- stands under it, as the library documents. For tls.go, `Answer` is what the steps of the packages crypto
-- and os give. For the keystores, `Filepath` and `Os` are the packages filepath and os, `KeyFile` and
-- `Sam` what i2pkeys reads and writes and what SAM gives, and `OnionKeys` and `Generation` the same for
-- Tor; `parse_ip` is `net.ParseIP`, `AddressTexts` the texts of an address, and `Registry` that of
-- go-sam-bridge.
--
-- Not modelled: the loop of the signal handler in cleanup.go; the empty configurations and the context
-- that an `Onion` hands to the Tor library; the constant fields of the template of a certificate;
-- the copying of bytes in proxy.go, whose connections are served one after the other;
-- nullconn.go, gen.go and garlic_config.go, which have constants only; log messages and the texts of
-- errors; options and timers; the goroutines around the rounds of hybrid1.
pub mod Prelude
pub mod Keys
pub mod Hybridcommon
pub mod Hybrid1
pub mod Hybrid2
pub mod Onion
pub mod Samples
pub mod Garlic
pub mod Routing
pub mod Tls
pub mod Keystore
pub mod Embedded
pub mod Proxy
