-- ===== src/Hub/Tests.antt =====
-- Concrete runs of the hub, internal/hub, on two nodes and the link between them.
mod Joining
mod Beats
use light_pn.Prelude.{
  replicate, ℕ, zero, suc, ◌≤◌, ◌≡◌, ◌≢◌, refl, [], ◌∷◌, none, some, ok, arith, String, true, false,
  pos, find_first, keep_if, length,
}
use light_pn.Prelude.Map.{lookup}
use light_pn.Proto.{EnrollData, Envelope, Json}
use light_pn.Proto.Kind
use light_pn.Pki.{X509}
use light_pn.Store.Tokens.{consume_token}
use light_pn.Store.Ipam.{Prefix}
use light_pn.Hub.Admitted.{address, enroll_frame-admits}
use light_pn.Store.{Node, Link, empty_store}
use light_pn.Store.Nodes.{is_node}
use light_pn.Hub.State.{
  Config, defaults, WgIdent, Side, side_a, side_b, Session, LinkRt, Hub, World, pending, session_of,
  session_at,
}
use light_pn.Hub.Push.{ready, push_pair}
use light_pn.Hub.Status.{link_status}
use light_pn.Hub.Control.{open_session, drop_session, handle_conf_result, handle_ack}
use light_pn.Hub.Removal.{is_revoked, new_hub}
use light_pn.Hub.Admin.{create_link, set_link_exit, delete_node}
use light_pn.Hub.Requests.{ask, finish_request}
use light_pn.Hub.Enroll.{is_recent, enroll_allowed, enroll_frame, replies, handle_conn, admits}
use light_pn.Metrics.{NodeRing, blank}
use light_pn.Hub.Session.{handle_heartbeat, ack_link}
use light_pn.Hub.Handshakes.{Keeps, handle_heartbeat-Keeps}
use light_pn.Hub.Pending.{link_operations-total, push_pair-pending}
use light_pn.Hub.Replies.{handle_conf_result-pinned, handle_ack_twice}
use light_pn.Hub.Lifetime.{open_session-lifetime}
use light_pn.Hub.Limiter.{enroll_allowed-limit}
use light_pn.Hub.Throttle.{attempts}
use light_pn.Hub.Revoked.{delete_node-refused, Refuses}

abbrev pub some_json : {A : Type 0} → A → Json A
some_json a = record { marshal = λ _. some []; unmarshal = λ _. some a }

abbrev pub no_json : {A : Type 0} → Json A
no_json = record { marshal = λ _. some []; unmarshal = λ _. none }

abbrev pub number : ℕ → String
number zero = "0"
number (suc zero) = "1"
number _ = "2"

abbrev pub world : World Unit
world = record {
  ulid = number;
  itoa = λ _. "51820";
  peer_spec = no_json;
  peer_remove = no_json;
  register = no_json;
  register_ack = no_json;
  heartbeats = no_json;
  acks = some_json (record { okay = true; error = "" });
  kick = λ _. [];
  errors = no_json;
  empty = no_json;
  svc_action = no_json;
  enroll = no_json;
  enroll_ack = no_json;
  netip = record { parse_prefix = λ _. none; to_string = number };
  bad_range = "";
  sha256 = λ s. s;
  floats = record { nought = tt; percent = λ _ _. tt; rate = λ _ _. tt };
}

abbrev pub node : String → String → Node
node id ip = record {
  id = id;
  name = id;
  overlay_ip = ip;
  cert_serial = "s";
  created_at = 1;
  last_seen = 1;
  revoked = false;
}

abbrev pub link : Link
link = record { id = "l"; a = "a"; b = "b"; created_at = 2; exit_node = "" }

abbrev pub session : Node → Session
session n = record {
  node = n;
  remote_ip = "1.2.3.4";
  out = [];
  direct = [];
  registered = true;
  agent_version = "";
  os = "";
  last_hb = 5;
  hb_wg = [];
  pending_acks = ("0", record { link_id = "l"; side = side_a }) ∷ [];
  closed = false;
}

abbrev pub ident : String → WgIdent
ident k = record { pubkey = k; port = pos 51820; ip = "1.2.3.4"; socks_port = pos 0 }

abbrev pub rt : LinkRt Unit
rt = record {
  ack_a = true;
  ack_b = true;
  last_hs = pos 5;
  rx_rate = tt;
  tx_rate = tt;
  prev_rx = 0;
  prev_tx = 0;
  prev_ts = 0;
}

abbrev pub hub : Hub Unit
hub = record {
  cfg = defaults;
  store = record empty_store { nodes = node "a" "ip1" ∷ node "b" "ip2" ∷ []; links = link ∷ [] };
  metrics = [];
  heap = session (node "a" "ip1") ∷ session (node "b" "ip2") ∷ [];
  sessions = ("a", 0) ∷ ("b", 1) ∷ [];
  links = ("l", rt) ∷ [];
  last_wg = ("a", ident "ka") ∷ ("b", ident "kb") ∷ [];
  revoked = [];
  gc_done = [];
  conf_wait = [];
  replies = [];
  events = [];
  enroll_tries = [];
  next_id = 0;
}

link_operations-total_example :
    ((a b : String) → create_link world a b 9 hub ≢ none)
    × ((id exit : String) → set_link_exit world id exit 9 hub ≢ none)
link_operations-total_example = link_operations-total world hub 9

a_ready : ready hub "a" ≡ some (0, ident "ka")
unfolding ready lookup
a_ready = refl

b_ready : ready hub "b" ≡ some (1, ident "kb")
unfolding ready lookup
b_ready = refl

pushed_hub : (h : Hub Unit) × (push_pair world link Kind.peer_add hub ≡ some h)
unfolding push_pair lookup
pushed_hub = (_, refl)

push_pair-pending_example :
    (link_status link 9 pushed_hub.0 ≡ pending)
    × ((side : Side) → link_status link 9 (ack_link "l" side pushed_hub.0) ≡ pending)
    × (link_status link 9 (ack_link "l" side_a (ack_link "l" side_b pushed_hub.0)) ≢ pending)
push_pair-pending_example =
    push_pair-pending world link Kind.peer_add 9 hub pushed_hub.0 (0, ident "ka") (1, ident "kb")
      a_ready b_ready pushed_hub.1

abbrev waiting : Hub Unit
waiting = (ask world world.empty "a" Kind.conf_get tt hub).1

asked : ask world world.empty "a" Kind.conf_get tt hub ≡ (ok "0", waiting)
unfolding ask lookup
asked = refl

abbrev reply : Envelope
reply = record { v = pos 1; kind = Kind.conf_result; id = "0"; payload = 7 ∷ [] }

b_session : session_at waiting 1 ≡ some (session (node "b" "ip2"))
unfolding ask lookup
b_session = refl

handle_conf_result-pinned_example :
    (◌≡◌ {A = String} "b" "a"
      → (finish_request "0" (handle_conf_result 1 reply waiting)).0 ≡ some reply.payload)
    × (◌≢◌ {A = String} "b" "a" → handle_conf_result 1 reply waiting ≡ waiting)
handle_conf_result-pinned_example =
    handle_conf_result-pinned world world.empty "a" Kind.conf_get "0" tt hub waiting asked 1 reply
      (session (node "b" "ip2")) b_session refl

handle_ack_twice_example :
    ((handle_ack world 0 reply 11 (handle_ack world 0 reply 10 hub)).links
      ≡ (handle_ack world 0 reply 10 hub).links)
    × ((handle_ack world 0 reply 11 (handle_ack world 0 reply 10 hub)).events
        ≡ (handle_ack world 0 reply 10 hub).events)
handle_ack_twice_example = handle_ack_twice world 0 reply 10 11 hub

open_session-lifetime_example :
    let (new, h') = open_session (node "a" "ip1") "5.6.7.8" 9 hub in
    ((old : ℕ) (s : Session)
      → session_of hub "a" ≡ some old
      → session_at hub old ≡ some s
      → (t : Session) × (session_at h' old ≡ some t) × (t.closed ≡ true))
    × (session_of h' "a" ≡ some new)
    × (0 ≢ new → session_of (drop_session 0 12 h') "a" ≡ some new)
    × (session_of (drop_session new 12 h') "a" ≡ none)
open_session-lifetime_example = open_session-lifetime (node "a" "ip1") "5.6.7.8" 9 12 hub 0

enroll_allowed-limit_example :
    length (
      keep_if
        (is_recent 9)
        (attempts (enroll_allowed "ip") [] (1 ∷ 2 ∷ 3 ∷ 4 ∷ 5 ∷ 6 ∷ 7 ∷ []) hub).0)
    ≤ 5
unfolding lookup
enroll_allowed-limit_example =
    enroll_allowed-limit "ip" hub 9 (1 ∷ 2 ∷ 3 ∷ 4 ∷ 5 ∷ 6 ∷ 7 ∷ []) refl (
      omega arith,
      (omega arith, (omega arith, (omega arith, (omega arith, (omega arith, (omega arith, tt)))))),
    )

abbrev after_delete : Hub Unit
after_delete = (delete_node world "a" 9 hub).1

a_deleted : delete_node world "a" 9 hub ≡ (ok tt, after_delete)
unfolding delete_node
a_deleted = refl

delete_node-refused_example :
    (n : Node) × (find_first (is_node "a") hub.store.nodes ≡ some n)
    × Refuses n.cert_serial after_delete
    × (lookup "a" after_delete.last_wg ≡ none)
    × ((cfg : Config) (h : Hub Unit)
        → new_hub cfg after_delete.store ≡ ok h
        → Refuses n.cert_serial h)
delete_node-refused_example = delete_node-refused world "a" 9 hub after_delete a_deleted

abbrev pub request : Envelope
request = record { v = pos 1; kind = Kind.enroll; id = "r"; payload = [] }
