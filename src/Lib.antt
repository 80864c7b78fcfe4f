-- ===== src/Lib.antt =====
-- LightPN is a hub that enrolls nodes, matches pairs of them by links, and an agent on each node that
-- keeps a WireGuard mesh. This library models the control protocol, the hub with its store, its
-- certificate authority and the panel's API, and the agent: its session with the hub, its WireGuard
-- manager, its exit upstreams, and the service commands and the configuration that it opens and seals
-- under view.key.
--
-- Proto (internal/proto/proto.go) has the envelope, the message types (Kind), the error codes (Code),
-- the payloads, and in Frame the framing: NewEnvelope is `new_envelope`, WriteFrame `write_frame` and
-- ReadFrame `read_frame`. A connection is the list of the chunks that Write was called with, or the
-- bytes that are still to be read. `read_frames` runs on fuel, one unit for each frame.
--
-- Store (internal/hub/store.go) has the SQLite tables as lists of rows, and each method of *Store
-- under its own name in snake case: Nodes, Links, Tokens, Names and Ipam. A method is a function from
-- the tables to its result and the new tables; what a constraint of the schema refuses is an error
-- that changes nothing. The scan of AllocateIP runs on as many units of fuel as the prefix has
-- addresses, and one more, which is enough for every prefix.
--
-- Metrics (internal/hub/ring.go) has the ring of samples of each node. float64 is a type with the
-- two quotients that the code computes; an index out of range is `none`, the panic.
--
-- Pki (internal/pki/pki.go) has SignCSR over an X.509 library.
--
-- Hub (internal/hub/hub.go, control.go and config.go) has the runtime state in State, with the
-- sessions as pointers into `heap`; in Push the matchmaking (pushLink, pushPairLocked,
-- sendPeerSpecLocked, peerSpecLocked); in Session the handlers of register and heartbeat; in Status
-- what the panel reads; in Control the life of a session, acknowledgements and replies; in Removal
-- the start of the hub and the withdrawal of peers with gcOfflinePeers; in Admin the operations of
-- the panel on links and nodes; in Requests what it asks of an agent; in Enroll the admission of
-- connections and the enrollment. Each function is what the code does under the hub's lock, or the
-- whole handler; a panic is `none` or `panics`. Enroll uses Pki and Store, Session uses Store and
-- Metrics, and Admin all of them.
--
-- Api is the panel's HTTP API (internal/hub/api.go): Password has the Argon2 hashes, Auth the session
-- table, the throttle and auth, login and logout on `ApiServer`, and Nodes, Services, Tokens and
-- Links the handlers, each a function from what it reads of the request and from the hub to a `Reply`
-- and the hub. Handlers that wait for an agent take what happens meanwhile as an argument.
--
-- Agent has SvcCmd (internal/agent/svccmd.go, with loadViewKey of viewkey.go and svcActions of
-- svcctl.go): openSvcCmd is `open_svc_cmd`; SvcAction (handleSvcAction of svccmd.go, collectSvcStatus
-- of svcctl.go) on a systemd that is a parameter; Sealed (seal and sealToolConf of viewkey.go);
-- ToolConf (internal/agent/toolconf.go), collectToolConf on a file system that is a parameter;
-- Registry (internal/agent/svcreg.go), AddSvc, DelSvc and lookupSvc on the registry file; Exit
-- (internal/agent/socks.go), the choice of the upstream of the SOCKS proxy by ExitController;
-- Wireguard (internal/agent/wg_linux.go), the methods of linuxWG on a kernel that is a parameter,
-- with Init, Status, Rotate and Teardown in Wireguard/Lifecycle and the contract of wgctrl in
-- Wireguard/Laws; and Session (internal/agent/agent.go), dispatch, with register in Session/Register
-- and the loop of Run in Session/Reconnect, which uses all of these and the interface WGManager of
-- wg.go.
--
-- Libraries that the repository only calls are parameters: encoding/json (`Json`), net/netip
-- (`Netip`), SHA-256, ULIDs, decimal printing, floating point (`Floats`), crypto/x509 (`X509`),
-- base64 and AES-GCM (`Crypto`, `Sealing`), Argon2 (`PasswordLib`), wgctrl, iproute2 and package
-- net (`Kernel`). Texts are native strings, int64 is ℤ without wrap-around, Unix times that the hub
-- reads from its own clock are in ℕ, and so are uint64 counters. Addresses are IPv4.
--
-- Not modelled: the TLS listeners, file input and output, the panel's mux and WebSocket, the
-- heartbeat loop of the agent, its identity files, the WireGuard manager of other platforms
-- (internal/agent/wg_stub.go), the SOCKS protocol, and the commands under cmd/.
mod Prelude
pub mod Proto
pub mod Store
pub mod Metrics
pub mod Pki
pub mod Hub
pub mod Agent
pub mod Api
