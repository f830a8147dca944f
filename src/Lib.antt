-- ===== src/Lib.antt =====
-- The oblivious relay fabric: fixed-size cells, end-to-end encryption, onion circuits over relays.
--
-- A client cuts a message into cells, encrypts each and sends each through a circuit of its own. A
-- relay peels one layer of a frame and forwards the rest, or keeps the body for the recipient, who
-- decrypts the cells and reassembles the message.
--
-- Which file models which part:
--   Core/Cell             crates/veil-core/src/cell.rs: `Cell::new_data` is `new_data`,
--                         `Cell::to_bytes` and `Cell::from_bytes` keep their names, `Cell::payload` is
--                         `real_payload`
--   Core/Error            crates/veil-core/src/error.rs
--   Core/Fragmentation    crates/veil-core/src/fragmentation.rs
--   Core/Reassembly       crates/veil-core/src/reassembly.rs: `Reassembler::insert` is `insert_cell`;
--                         Core/Reassembly/Spec is the specification that it implements
--   Core/Crypto           crates/veil-core/src/crypto: keys.rs and encryption.rs; Keys/Text is the hex
--                         form
--   Relay/Forwarding      crates/veil-relay/src/forwarding.rs: the onion layers
--   Routing/Circuit       `build_circuit` of crates/veil-routing/src/lib.rs
--   Routing/PathSelection crates/veil-routing/src/path_selection.rs
--   Routing/Topology      crates/veil-routing/src/topology.rs
--   Routing/DummyTraffic  crates/veil-routing/src/dummy_traffic.rs
--   Routing/Discovery     crates/veil-routing/src/discovery.rs
--   Routing/TopologyFile  crates/veil-routing/src/topology_file.rs
--   Relay/Framing         crates/veil-relay/src/forwarding.rs: the frames on a stream
--   Relay/Mailbox         crates/veil-relay/src/mailbox.rs
--   Relay/PullListener    crates/veil-relay/src/pull_listener.rs: `handle_request`; `pull` and
--                         `describe` are a request and `pull_response` or `describe_response`;
--                         PullListener/Serving is the loop of `serve`
--   Relay/Node            crates/veil-relay/src/node.rs and metrics.rs: `RelayNode::forward` is
--                         `forward_frame`, `handle_connection` keeps its name, the accept loop of
--                         `RelayNode::run` is the relation `Step`; Node/Hop is a relay on a circuit;
--                         Node/Reading is the loop of `handle_connection` on the bytes of a stream
--   Relay/Config          crates/veil-relay/src/config.rs and main.rs, and `RelayNode::new`;
--                         Config/Start is the start of `main`, Config/Keygen is
--                         bin/veil-relay-keygen.rs
--   Relay/Address         the socket addresses and mailbox ports of both binaries
--   Sdk/Envelope          crates/veil-sdk/src/envelope.rs
--   Sdk/Session           crates/veil-sdk/src/session.rs
--   Sdk/Client            crates/veil-sdk/src/client.rs: `send`
--   Sdk/Receiver          crates/veil-sdk/src/receiver.rs
--   Sdk/CoverTraffic      crates/veil-sdk/src/cover_traffic.rs: `spawn` takes the number of rounds
--                         behind which the task is aborted
--   Sdk/Delivery          a message from `send` over the relays to `poll`: no code of its own; in
--                         Delivery/Fabric all relays take turns, in any order, on one network
--   Cli                   crates/veil-cli/src/main.rs: `parse_args`; Cli/Main is `main`, Cli/Modes is
--                         `run_external` and `send_and_receive`, Cli/SelfHosted is `run_self_hosted`, Cli/Mailboxes is
--                         `mailbox_address_from`; Cli/Listed is a started relay as the client sees it
--   External              the crates rand, x25519_dalek, hkdf, chacha20poly1305, hex, serde_json, toml,
--                         the streams of tokio and the file system: records of operations, which are
--                         parameters, and records of the laws that are relied on
--   Prelude               lists, bytes, results, dictionaries, slices and copies, UTF-8 and its lossy
--                         reading, shared by all
--   Tests                 a generator and a cipher that satisfy the laws, and concrete inputs
--
-- How the code is read. Bytes are numbers below 256, where a theorem asks for it; a number of w
-- bits keeps its wrap-around, written `% 2 ^ w`. A `String` is the list of its UTF-8 bytes. A
-- `HashMap` is an association list with unique keys, in some order. The generator is a state that a
-- draw advances. A fallible function returns a `Result`; where the code can panic it returns an
-- option, and `none` is the panic. In Core/Crypto/Encryption and Sdk/Envelope a slice or a copy of the
-- wrong length is such a panic; the slices of cells have fixed bounds, and those of Relay/Forwarding
-- stand behind a test of the length, and are `take` and `drop`. A sum that only a debug build checks
-- takes the flag
-- `overflow_checks`. The loop of `slice::chunks` runs on the length of the message as fuel: each
-- round takes at least one byte, so that is enough, and the joined chunks are the message. The text
-- of a `u16` is printed with five digits as fuel, which is enough below 100000. The loop of a
-- connection runs on fuel; once the peer has closed its side, one round more than bytes is enough.
--
-- Not modelled: binding, accepting and connecting of sockets, the tasks and locks of the relay, whose
-- accesses are steps, the texts around the values that are printed, the debug form in which a
-- delivered text is printed, and logging. The wiping of secrets has no effect on values.
pub mod Prelude
pub mod External
pub mod Core
pub mod Relay
pub mod Routing
pub mod Sdk
pub mod Cli
pub mod Tests
