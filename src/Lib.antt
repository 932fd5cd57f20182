-- ===== src/Lib.antt =====
-- lando, a Tailscale node for microcontrollers: the protocol core of crates/tailscale-core.
--
-- The core does no input or output. The firmware (crates/lando-fw) and the host program
-- (crates/lando-host) move bytes between sockets and the pieces below. A WireGuard peer holds up to
-- two sessions, each with a replay window; handshakes carry timestamps that make them unrepeatable;
-- where no direct path exists, packets travel in frames over a DERP relay; and mDNS questions of the
-- local network are relayed into the tailnet and their answers back.
--
-- Prelude, with Prelude/Lists, Prelude/Results, Prelude/Slices, Prelude/Bits, Prelude/Bytes,
-- Prelude/Decimal, Prelude/Fields, Prelude/Copies and Prelude/Checks: lists, results, bit operations, byte buffers, the
-- loop for decimal digits and messages built of fields, which the parts share. A text of the source is the list of its bytes, `codes` of an ASCII literal.
--
-- Crypto: what the code takes from crates, as records of operations with records of the laws the code
-- relies on. `Aead` is the cipher of the sessions; `Suite` adds BLAKE2s, its keyed mode and the two
-- operations of X25519, a private key being its bytes; `Box` is crypto_box, whose key is made of a secret and
-- a public key. The laws give the lengths, that what was sealed opens under the same keys, and that the
-- two ends of a Diffie-Hellman step agree. They are parameters of what uses them. No theorem supposes
-- that a forgery cannot be made. Crypto/Blake is crates/tailscale-core/src/crypto.rs, with the two loops on
-- the rounds that are left; Blake/Rfc has the constructions of the RFCs. Crypto/Sealing is one sealed text.
--
-- Wireguard/Message and Wireguard/Timestamp: crates/tailscale-core/src/wireguard/mod.rs. `Tai64n` is
-- the twelve bytes of a handshake timestamp, `from_unix` and `from_counter` its constructors and
-- `is_newer_than` its byte order. Timestamp/Order has the proofs.
--
-- Wireguard/Handshake: crates/tailscale-core/src/wireguard/handshake.rs. A method of `State` returns the
-- state after the call; a slice that a method fills is its length as an argument, and its bytes in the
-- result. A cipher is its key, since it is used at once and no more. Handshake/Initiations and
-- Handshake/Responses follow the two messages, Handshake/Agreement joins the two roles.
--
-- Wireguard/Replay: `ReplayWindow` of crates/tailscale-core/src/wireguard/transport.rs. The bitmap is
-- a list of 32 words of 64 bits that the counters index cyclically, as in the code. Replay/Spec
-- is the abstract window, the list of all accepted counters; Replay/Window and Replay/Refine relate
-- the two.
--
-- Wireguard/Transport: `Session` of the same file. `encrypt` and `decrypt` return the session after
-- the call beside the result; `encrypt` also returns the output buffer. Transport/Packet,
-- Transport/Replays and Transport/Nonces have the proofs.
--
-- Wireguard/Peer: `Peer` and `Active` of crates/tailscale-core/src/wireguard/peer.rs, one function
-- for each method, with the time as an argument in seconds as in the code. Peer/Expiry is about the
-- two sessions, Peer/Handshakes about initiations and their timestamps.
--
-- Derp/Frame: crates/tailscale-core/src/derp/frame.rs. `FrameReader::feed` is a loop over a `match`
-- on four states: `round` is the match, and `feed_loop` the loop on fuel. Four rounds are enough,
-- since a header can lead to buffering and buffering to draining, and one more round at most finds
-- the input used up. Frame/Total, Frame/Rounds and Frame/Reads have the proofs.
--
-- Derp/Handshake: crates/tailscale-core/src/derp/handshake.rs, the sealed payload and that of ClientInfo;
-- Handshake/Opens has the proofs.
--
-- Disco: crates/tailscale-core/src/disco.rs, the recognition and the opening of a ping and the pong.
-- Disco/Pongs has the proofs.
--
-- Noise: crates/tailscale-core/src/noise.rs. Noise/Handshake is the client's half of the ts2021 handshake,
-- `start` and `finish`; `start` answers with an error where one of its two `expect`s would panic.
-- Handshake/Spec is the symmetric state of the Noise specification, with the HKDF of RFC 5869, and
-- Handshake/Server its responder, which the sources do not have; Handshake/Follows relates the two states,
-- Handshake/Agreement the two ends. Noise/Record is the record layer, with the session after a call
-- beside its result; Record/Stream reads what was written.
--
-- Mdns: crates/tailscale-core/src/mdns.rs. A function that rewrites a message in place returns the
-- message, and beside it the result; the loop of `skip_name` has one round of fuel for each byte of the
-- message and one more, which is enough, since each label takes a byte. A `usize` has 32 bits there,
-- as on the device. Mdns/Wire writes out the questions of a message after RFC 1035, and Mdns/Requests says
-- what becomes of them; Mdns/Names, Mdns/Questions, Mdns/Restore and Mdns/Relay have the other proofs.
--
-- Key: crates/tailscale-core/src/key.rs. The macro's three pairs of key types are one `KeyKind` with a
-- prefix each; a public key is its 32 bytes. Key/Hex and Key/RoundTrip have the proofs.
--
-- Json: crates/tailscale-core/src/json.rs. Json/Writer is the writer, a method being a function from
-- the writer to the writer after the call or an error; Json/Reader the field extractor, whose parser is
-- the bytes still ahead; Json/Elements the iterator. Json/Utf8 is `str::from_utf8`. Json/Doc is the
-- independent view: JSON values and the text they print to. The reader's loops have one round of fuel
-- more than there are bytes ahead, which is enough, since each round takes a byte; the error
-- `out_of_fuel`, which the code does not have, would show that it was not.
--
-- Control: crates/tailscale-core/src/control.rs. Control/Request writes the two requests with the
-- calls in the code's order, and Request/Spec says which JSON value each one is; Control/Frames is the
-- splitter of the map stream and the early payload; Control/Response the peer list, the registration's
-- outcome and the nested accessors. Response/Spec says what the members of an object mean, over JSON
-- values and not over text, and Response/Said and Response/Printed relate the code to it.
--
-- H2: crates/tailscale-core/src/h2.rs. H2/Reader is `FrameReader`, with `feed` as in Derp/Frame and
-- four rounds of fuel for the same reason; Reader/Rounds and Reader/Loop have the proofs. H2/Writer is the
-- frame writer, the HPACK integers and the request headers; Writer/Emits says what each method adds to
-- the buffer. The loop of an HPACK integer has six rounds, five bytes of seven bits being enough for a
-- `u32`. H2/Delivery joins the two.
--
-- Tsmp: crates/tailscale-core/src/tsmp.rs, the ping in a tunnel packet and its pong. The loop that folds
-- the carries of a checksum has three rounds, enough for the ten words of a header. Tsmp/Checksum and
-- Tsmp/Answer have the proofs.
--
-- Upgrade: crates/tailscale-core/src/upgrade.rs. `iter().position` and `windows(4).position` are
-- recursive functions, and the writer is as in Json. Upgrade/Base64 has the decoder of RFC 4648,
-- Upgrade/Requests the text of the request, Upgrade/Responses the reading of the response.
--
-- Firmware/Node: `Node` of crates/lando-fw/src/wg.rs, where disco, the handshake, the sessions and TSMP come
-- together: `handle` takes a packet of either transport and answers with the node after it, the buffer
-- and the action. Node/Counting is about `bump`, Node/Nonces
-- and Node/Pongs about the pongs and their nonces, Node/Serves and Node/Returns
-- about a peer's handshake and the packets after it.
--
-- Firmware/Config: crates/lando-fw/src/config.rs, the configuration in a sector of the flash, which is a
-- parameter with the law that what was written into an erased range is read. A buffer index past the end
-- is a panic there, and a `none` here. Config/Writes, Config/Reads and Config/Stored have the proofs.
--
-- Machine integers are natural numbers, and what overflows is written out where the code lets it. A
-- `u64` counter stays far below its bound, because the code refuses to go past
-- `REJECT_AFTER_MESSAGES`. Panics of slice indexing do not occur in the model where the code tests
-- the length first; a buffer that a caller hands over may have any length.
--
-- Not modelled: the primitives of the crypto crates and the generation of private keys, and what does input
-- and output: the rest of crates/lando-fw, and crates/lando-host.
pub mod Control
pub mod Crypto
pub mod Derp
pub mod Disco
pub mod Firmware
pub mod H2
pub mod Json
pub mod Key
pub mod Mdns
pub mod Noise
pub mod Prelude
pub mod Tsmp
pub mod Upgrade
pub mod Wireguard
