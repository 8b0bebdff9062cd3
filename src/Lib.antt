-- ===== src/Lib.antt =====
-- smolgnet: the wire formats, the data link with its credit, and the routing of a GDP network stack.
--
-- A packet is encoded by wire/, carried by a data link as flits or whole frames, and forwarded by a
-- route table; an egress scheduler chooses whose packet a link takes next. Link control brings a
-- link up before it carries data, and GTS streams stand on the packets.
--
--   Base           shared notation and lemmas; error.rs in Base/Results
--   Wire/Crc       src/wire/crc.rs: the registers and tables of both CRCs; Bitwise relates them
--   Wire/Gdp       src/wire/gdp_common.rs: types, size classes, addresses and headers
--   Wire/Gdp/Header  src/wire/gdp_handwritten.rs: encode_header_into and decode_header
--   Wire/Gdp/Packet  src/wire/gdp.rs: GdpPacket::new, encode and decode
--   Dlp            src/dlp.rs: flits, frames and configurations
--   Dlp/Endpoint   src/dlp.rs: DlpEndpoint; Transmit and Receive have the methods that send and
--                  receive, Invariant what holds between two calls, Operations, Transmit/Sound,
--                  Receive/Sound and Receive/Frames that each method keeps it, Reachable all of them
--   Dlp/Link       src/dlp_v01.rs: DlpLink; CreditSafety has two links and the wire between them
--   Dlp/Port       src/dlp_gdp.rs: DlpGdpPort
--   Routing        src/routing.rs: prefixes and RouteTable
--   Time           src/time.rs
--   Dynamic        src/dynamic_routing.rs: ids, origins and metrics
--   Dynamic/Messages   src/wire/gctl_routing.rs: the messages of the routing protocol
--   Dynamic/Adjacency  src/router_adjacency.rs: Hold relates the state to the messages received,
--                  Handshake is an exchange of two routers over the bytes of their messages
--   Dynamic/Rib    src/router_rib.rs: Order has the comparison of routes, Select the best one, Table,
--                  Removal and Reachable the stored routes, Updates and Horizon what neighbours hear
--   Egress         src/egress_scheduler.rs: RouterEgressScheduler; Flows has its map, Invariant what
--                  holds between two rounds, Admitted the queue of the link, Round the round
--   Endpoint       src/endpoint/core.rs: the configuration; LinkOps is what link control calls
--   Control        src/dlp_control.rs: Frame has the frames of link control, Parameters the choices
--                  of modes, rates and units, Managed the endpoint that negotiates, Cable the two
--                  ends and the exchange between them, Agreement what the two settle on, Repeated
--                  what a hello does that comes once more
--   Gts            src/wire/gts.rs: types, directions and stream profiles
--   Gts/Lower      src/wire/gts.rs and src/wire/gts_handwritten.rs: the lower packet and its codec
--   Storage        src/storage.rs: RingBuffer, which Ring shows to be a queue, and PacketBuffer
--
-- A method that mutates its object returns the object beside its result, also after an error. A word
-- is a natural number with its range stated where it matters; wrapping and saturation are written
-- out, and a saturating subtraction is the subtraction of the natural numbers. A buffer that is
-- written is returned; an output slice is the list of what is written and the room for it. A map is
-- the list of its entries. Every loop but one is a recursion on a list, on the room of a slice, on
-- the capacity of a round or on the source's own number of rounds. The loop of DlpDirectCable::pump
-- recurs on fuel, one more than the transfers it is allowed: each round that goes on has moved
-- something, and a round that starts at the limit ends the loop.
--
-- Not modelled: the builds with the features p4-gdp and p4-gts, whose parsers are generated; the
-- message pool, sockets, the streams of GTS, GCTL, CSS, the services of an endpoint, the routers,
-- switches and the endpoint runtime; traces and device traits, which have no state of their own.
pub mod Base
pub mod Wire
pub mod Dlp
pub mod Routing
pub mod Time
pub mod Dynamic
pub mod Endpoint
pub mod Control
pub mod Gts
pub mod Egress
pub mod Storage
