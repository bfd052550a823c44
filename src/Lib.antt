-- ===== src/Lib.antt =====
-- WolfNet: a mesh VPN. A daemon reads IP packets from a TUN device, seals them for a peer and sends
-- them as UDP datagrams, and the way back; it learns of peers from its configuration, from
-- broadcasts on the LAN, from handshakes and from what other peers tell it. Paths are from the
-- repository's root.
--
-- The parts, and the files that model them:
--
-- src/crypto.rs - Crypto.KeyFile: `KeyPair::generate`, `load`, `save` and `load_or_generate` on the
--   text of the key file. Crypto: keypair_of_bytes is the end of `KeyPair::load`; `peer_id` and
--   `parse_public_key` keep their names; `SessionCipher` is a record with the methods new_cipher,
--   make_nonce, encrypt, encrypt_into, decrypt, decrypt_into, each of which returns the cipher that
--   it leaves. The tests that both decryption routines share are is_stale and advance.
-- src/peer.rs - Peer: one peer with its session and its counters. Manager: the peer table with its
--   indexes by id and by endpoint; `update_from_discovery` is put together from refresh_peer,
--   migrate_peer and introduce_peer, its three outcomes. Routes: the two route tables, their files
--   and `find_subnet_match`. Pex: `get_pex_entries` and `add_from_pex`. Net: addresses, their text
--   forms, and `is_routable_endpoint`.
-- src/transport.rs - Transport: the packets and the discovery message; Transport.Senders: the three
--   periodic senders, each of which returns the datagrams that it hands to the socket.
-- src/tun.rs - Tun: the addresses in the header of an IP packet. Tun.Device: the name of the
--   device, and `TunDevice::configure` as the steps that it takes, in order.
-- src/main.rs - Daemon: `encrypt_and_send` with its send buffer (Daemon.State), the handling of a
--   packet from the TUN device (Outbound) and of a datagram (Inbound), the timers (Periodic), the
--   configured peers and the reload on SIGHUP (Reload). A handler takes a World, which is the peer
--   table, the send buffer, the datagrams sent and the packets delivered, and returns it changed.
--   Daemon.Run puts the handlers together: a State is the clock, the timers and the World, react
--   handles one event, and Reach is every run from a start; Daemon.Boot is what `run_daemon` does
--   before its loop and after it. Join: what `cmd_join` makes of a configuration; Join.Token: the
--   tokens of `cmd_invite` and `cmd_join`, and `detect_public_ip`. Cli: the commands on the
--   configuration and the key file, which together are a Disk; Cli.Program: `main`.
-- src/config.rs - Config: the data and its defaults; Config.Dedup and Config.Migration: the repairs
--   of `Config::load`; Config.Files: `Config::load` and `Config::save` on the three files, where a
--   save is a list of file operations that may stop at any point.
-- src/ctl/main.rs - Status: `PeerManager::status`, the file that the daemon writes; Ctl: what the
--   commands of wolfnetctl compute from it; Ctl.Lines: the columns of the lines that they print;
--   Ctl.Purge: `cmd_purge`; Ctl.Program: `main`, which reads the status file, and the thread of
--   src/main.rs that writes it.
-- src/gateway.rs - Gateway: its functions as the commands that they try, in order.
--
-- How they interact: the event loop calls the table for every packet and each peer for its session;
-- handshakes and the discovery listener change the table, peer exchange adds to it, and the reload
-- takes the configuration's peers over. The commands write the files that the next start reads.
-- Daemon.Health and the Health modules of the parts it calls carry one predicate of a peer through
-- all of them. Daemon.Link puts two nodes together.
--
-- External is a record of the functions that the program calls and does not contain: SHA-256,
-- X25519, ChaCha20-Poly1305, base64, serde_json, name resolution, UTF-8 and the text form of IPv6
-- addresses. Every definition that uses one takes the record as an argument; Toml, TokenJson and
-- StatusJson are more of the kind, for the configuration, tokens and the status file. IsLawful
-- states what their documents promise, and External.Sample is a record that satisfies it. Shared
-- holds what all files use: tests, lists, maps as association lists whose order stands for the
-- order of iteration, and bytes.
--
-- Numbers are natural numbers; the counters and byte counts wrap at 2 ^ 64 where the source adds to
-- them. An Instant is a number of nanoseconds, and a method takes the time of its call; a handler
-- runs at one time. Loops are structural recursion over the list that the source iterates; the one
-- loop with fuel is the search for an address in Join, with 257 turns for the 256 values of an
-- octet. A lookup that panics in the source does not occur: slices are in range where the theorems
-- state it; where wolfnetctl cuts the text of a key, a panic is a result.
--
-- Not modelled: the locks (each method of the table is one step, and the discovery threads and the
-- event loop do not interleave inside one), the permissions of files, the system calls on the TUN
-- device, what the commands of the gateway and of the TUN device do, the write-back of the
-- configuration at a reload, the sockets of the discovery threads, the HTTP requests to the address
-- services, the messages of the commands, the padding of wolfnetctl's lines and its byte counts in
-- floating point.
pub mod Shared
pub mod Net
pub mod External
pub mod Crypto
pub mod Peer
pub mod Manager
pub mod Routes
pub mod Pex
pub mod Tun
pub mod Transport
pub mod Config
pub mod Join
pub mod Cli
pub mod Status
pub mod Ctl
pub mod Gateway
pub mod Daemon
pub mod Tests
