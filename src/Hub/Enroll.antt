-- ===== src/Hub/Enroll.antt =====
-- Who may connect, internal/hub/control.go: handleConn, enrollAllowed and handleEnroll. The
-- answers that go to the connection before there is a session are results.
use Prim.Native.String.{◌++◌ as text_append}
use light_pn.Prelude.{
  ℕ, ◌+◌, ◌-◌, ◌*◌, ◌/◌, String, Bool, true, false, not, ◌||◌, List, [], ◌∷◌, ◌++◌, Option, none,
  some, Result, ok, err, ltb, leb, eqb_ℤ, if◌then◌else◌, ◌is◌, length, keep_if,
}
use light_pn.Prelude.Map.{lookup, insert}
use light_pn.Proto.{Envelope, EnrollData, new_envelope, version}
use light_pn.Proto.Kind
use light_pn.Proto.Code
use light_pn.Pki.{X509, SignError, sign_csr}
use light_pn.Store.{Node, StoreError, Store, not_found, token_expired, token_used, ipam_exhausted}
use light_pn.Store.Nodes.{get_node, create_node}
use light_pn.Store.Tokens.{consume_token}
use light_pn.Store.Ipam.{allocate_ip}
use light_pn.Hub.State.{enrolled, Hub, World}
use light_pn.Hub.Session.{publish}
use light_pn.Hub.Removal.{is_revoked}

-- the common name and the serial of the client certificate that the TLS library verified
pub record PeerCert : Type 0 where
  pub common_name : String
  pub serial : String

-- what handleConn does with a connection
pub data Admission : Type 0 where
  enrolls : Admission
  rejects : String → String → Admission
  admits : Node → Admission

abbrev pub known : String → Result StoreError Node → Admission
known serial (err _) = rejects Code.auth_failed "unknown or revoked node"
known serial (ok n) =
    if n.revoked || not (n.cert_serial is serial)
    then rejects Code.auth_failed "unknown or revoked node"
    else admits n

-- now.Sub(t) < time.Minute, in nanoseconds
abbrev pub is_recent : ℕ → ℕ → Bool
is_recent now t = ltb (now - t) 60_000_000_000

abbrev pub tries_of : Option (List ℕ) → List ℕ
tries_of none = []
tries_of (some ts) = ts

module _ {F : Type 0} where
  -- handleConn, after the handshake
  unfoldable pub handle_conn : Option PeerCert → Hub F → Admission
  unfolding is_revoked get_node
  handle_conn none h = enrolls
  handle_conn (some c) h =
      if is_revoked c.serial h
      then rejects Code.cert_revoked "certificate revoked"
      else known c.serial ((get_node c.common_name h.store).0)

  -- enrollAllowed
  unfoldable pub enroll_allowed : String → ℕ → Hub F → Bool × Hub F
  enroll_allowed ip now h =
      let kept = keep_if (is_recent now) (tries_of (lookup ip h.enroll_tries)) in
      if leb 5 (length kept)
      then (false, record h { enroll_tries = insert ip kept h.enroll_tries })
      else (true, record h { enroll_tries = insert ip (kept ++ now ∷ []) h.enroll_tries })

-- what handleEnroll writes to the connection: nothing, an error, or the answer
pub data Answer : Type 0 where
  silent : Answer
  error : String → String → Answer
  replies : Envelope → Answer

abbrev pub token_error : StoreError → Answer
token_error token_expired = error Code.token_expired "token expired"
token_error token_used = error Code.token_used "token already used"
token_error not_found = error Code.auth_failed "unknown token"
token_error _ = error Code.internal "token check failed"

-- the node's row
abbrev pub row_of : EnrollData → String → String → String → ℕ → Node
row_of d id ip serial now = record {
  id = id;
  name = if d.hostname is "" then id else d.hostname;
  overlay_ip = ip;
  cert_serial = serial;
  created_at = now;
  last_seen = 0;
  revoked = false;
}

abbrev pub ip_error : String → StoreError → String
ip_error bad_range ipam_exhausted = "IPAM exhausted"
ip_error bad_range _ = bad_range

module _ {F Csr : Type 0} (w : World F) (x : X509 Csr) where
  -- the end of handleEnroll: the row is written, and the certificate sent
  abbrev pub welcome :
      EnrollData
      → String
      → String
      → Node
      → String
      → String
      → Hub F
      → Result StoreError Unit × Store
      → Answer × Hub F
  welcome d id local n pem ca h (err _, st) =
      (error Code.internal "node create failed", record h { store = st })
  welcome d id local n pem ca h (ok _, st) =
      elim (new_envelope w.enroll_ack Kind.enroll_ack id (record {
        node_id = n.id;
        cert_pem = pem;
        ca_pem = ca;
        overlay_ip = text_append n.overlay_ip "/32";
        overlay_cidr = h.cfg.overlay_cidr;
        control_addr = if h.cfg.public_addr is "" then local else h.cfg.public_addr;
      })) [
        | none ↦ (silent, record h { store = st })
        | some env ↦ (replies env, publish (enrolled n.id n.name) (record h { store = st }))
      ]

  abbrev pub signed :
      EnrollData
      → String
      → String
      → String
      → String
      → String
      → ℕ
      → Hub F
      → Result SignError (String × String)
      → Answer × Hub F
  signed d id local node ip ca now h (err _) = (error Code.internal "CSR rejected", h)
  signed d id local node ip ca now h (ok (pem, serial)) =
      let n = row_of d node ip serial now in welcome d id local n pem ca h (create_node n h.store)

  abbrev pub allocated :
      EnrollData
      → String
      → String
      → String
      → ℕ
      → ℕ
      → Hub F
      → Result StoreError String × Store
      → Answer × Hub F
  allocated d id local ca now serial h (err e, st) =
      (error Code.ipam_exhausted (ip_error w.bad_range e), record h { store = st })
  allocated d id local ca now serial h (ok ip, st) =
      let node = w.ulid h.next_id in
      signed d id local node ip ca now (record h { store = st; next_id = h.next_id + 1 })
        (sign_csr x d.csr_pem node (h.cfg.cert_ttl_days * 86_400) now serial)

  abbrev pub burned :
      EnrollData
      → String
      → String
      → String
      → ℕ
      → ℕ
      → Hub F
      → Result StoreError Unit × Store
      → Answer × Hub F
  burned d id local ca now serial h (err e, st) = (token_error e, record h { store = st })
  burned d id local ca now serial h (ok _, st) =
      allocated d id local ca now serial (record h { store = st })
        (allocate_ip w.netip h.cfg.overlay_cidr h.cfg.ip_cooldown_s now st)

  -- handleEnroll on the first frame
  unfoldable pub enroll_frame : Option Envelope → String → String → ℕ → ℕ → Hub F → Answer × Hub F
  unfolding consume_token allocate_ip sign_csr create_node new_envelope
  enroll_frame none local ca now serial h = (silent, h)
  enroll_frame (some env) local ca now serial h =
      if not (eqb_ℤ env.v version)
      then (error Code.version_unsupported "unsupported protocol version", h)
      else if not (env.kind is Kind.enroll)
      then (error Code.auth_failed "client certificate required", h)
      else elim (w.enroll.unmarshal env.payload) [
        | none ↦ (error Code.internal "bad enroll payload", h)
        | some d ↦
            burned d env.id local ca now serial h (consume_token w.sha256 d.token now h.store)
      ]

  abbrev pub enroll_if : Bool × Hub F → Option Envelope → String → String → ℕ → ℕ → Answer × Hub F
  enroll_if (false, h) frame local ca now serial = (error Code.auth_failed "rate limited", h)
  enroll_if (true, h) frame local ca now serial = enroll_frame frame local ca now serial h

  -- handleEnroll: the source and the local address of the connection, the CA's certificate, the
  -- clock in nanoseconds, the random serial and the frame
  unfoldable pub handle_enroll :
      String → String → String → ℕ → ℕ → Option Envelope → Hub F → Answer × Hub F
  unfolding enroll_allowed enroll_frame
  handle_enroll ip local ca clock serial frame h =
      enroll_if (enroll_allowed ip clock h) frame local ca (clock / 1_000_000_000) serial
