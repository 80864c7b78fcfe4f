-- ===== src/Api/Nodes.antt =====
-- The panel's node handlers, internal/hub/api.go: nodeJSON to deleteNode.
use light_pn.Prelude.{
  ℕ, ◌*◌, ◌/◌, String, Bool, false, ◌||◌, List, [], ◌∷◌, Option, none, some, Result, ok, err, ℤ,
  pos, negsuc, sub_ℕ, eqb_ℤ, ltb, ◌==◌, if◌then◌else◌, ◌is◌,
}
use light_pn.Proto.{WgPeerStatus}
use light_pn.Store.{Node, StoreError, Tx}
use light_pn.Store.Nodes.{get_node, list_nodes, rename_node}
use light_pn.Metrics.{Sample, latest, range}
use light_pn.Hub.State.{Status, Hub, World}
use light_pn.Hub.Status.{SessionInfo, node_status, session_info}
use light_pn.Hub.Admin.{HubError, refused, node_offline, marshal_failed}
use light_pn.Hub.Admin as Admin
use light_pn.Api.{
  Reply, json, http_err, dropped, text, store_error, hub_error, not_found_or_500, Okay, okay_reply,
}

pub record NodeJson (F : Type 0) : Type 0 where
  pub id : String
  pub name : String
  pub overlay_ip : String
  pub status : Status
  pub endpoint : String
  pub agent_version : String
  pub last_seen : ℕ
  pub exit_capable : Bool
  pub sys_summary : Option (Sample F)

-- the answer of getNode: the node, and the peers of its session if it has one
pub record NodeDetail (F : Type 0) : Type 0 where
  pub node : NodeJson F
  pub peers : Option (List WgPeerStatus)

-- the columns of nodeMetrics
pub record Series (F : Type 0) : Type 0 where
  pub ts : List ℤ
  pub cpu : List F
  pub mem : List F
  pub disk : List F
  pub rx : List F
  pub tx : List F

abbrev json_or_dropped : {A : Type 0} → Option A → Reply A
json_or_dropped none = dropped
json_or_dropped (some a) = json a

-- httpNotFoundOr500 on an error of the hub
abbrev pub hub_not_found_or_500 : {A : Type 0} → HubError → Reply A
hub_not_found_or_500 (refused e) = not_found_or_500 e
hub_not_found_or_500 e = http_err 500 (hub_error e)

module _ {F : Type 0} (w : World F) where
  abbrev with_session : Node → Status → Option SessionInfo → Option (Sample F) → NodeJson F
  with_session n status none s = record {
    id = n.id;
    name = n.name;
    overlay_ip = n.overlay_ip;
    status = status;
    endpoint = "";
    agent_version = "";
    last_seen = n.last_seen;
    exit_capable = false;
    sys_summary = s;
  }
  with_session n status (some info) s = record {
    id = n.id;
    name = n.name;
    overlay_ip = n.overlay_ip;
    status = status;
    endpoint = info.endpoint;
    agent_version = info.agent_version;
    last_seen = info.last_hb;
    exit_capable = info.exit_capable;
    sys_summary = s;
  }

  -- nodeJSON; `none` is a panic of Latest
  unfoldable pub node_json : Node → ℕ → Hub F → Option (NodeJson F)
  unfolding node_status session_info latest
  node_json n now h = elim (latest n.id h.metrics) [
    | none ↦ none
    | some s ↦ some (with_session n (node_status n.id now h) (session_info w n.id h) s)
  ]

  -- the loop of listNodes
  unfoldable pub node_jsons : List Node → ℕ → Hub F → Option (List (NodeJson F))
  unfolding node_json
  node_jsons [] now h = some []
  node_jsons (n ∷ ns) now h = elim (node_json n now h) [
    | none ↦ none
    | some j ↦ elim (node_jsons ns now h) [ none ↦ none | some js ↦ some (j ∷ js) ]
  ]

  abbrev listed : ℕ → Hub F → Result StoreError (List Node) → Reply (List (NodeJson F))
  listed now h (err e) = http_err 500 (store_error e)
  listed now h (ok ns) = json_or_dropped (node_jsons ns now h)

  -- listNodes
  unfoldable pub list_nodes_reply : ℕ → Hub F → Reply (List (NodeJson F)) × Hub F
  unfolding node_jsons list_nodes
  list_nodes_reply now h = (listed now h ((list_nodes h.store).0), h)

  abbrev detail : String → Hub F → NodeJson F → NodeDetail F
  detail id h j = record {
    node = j;
    peers = elim (session_info w id h) [ none ↦ none | some info ↦ some info.wg_peers ];
  }

  abbrev shown : ℕ → Hub F → Result StoreError Node → Reply (NodeDetail F)
  shown now h (err e) = not_found_or_500 e
  shown now h (ok n) = elim (node_json n now h) [ none ↦ dropped | some j ↦ json (detail n.id h j) ]

  -- getNode
  unfoldable pub get_node_reply : String → ℕ → Hub F → Reply (NodeDetail F) × Hub F
  unfolding get_node node_json session_info not_found_or_500
  get_node_reply id now h = (shown now h ((get_node id h.store).0), h)

-- parseRange, in nanoseconds; `parsed` is time.ParseDuration of the text
unfoldable pub parse_range : String → Option ℤ → ℕ → ℕ
parse_range s none def = def
parse_range s (some (negsuc _)) def = def
parse_range s (some (pos d)) def =
    if s is "" then def else if d == 0 || ltb (24 * 3_600 * 1_000_000_000) d then def else d

module _ {F : Type 0} where
  -- the loop over the samples
  unfoldable pub series_of : List (Sample F) → Series F
  series_of [] = record { ts = []; cpu = []; mem = []; disk = []; rx = []; tx = [] }
  series_of (s ∷ ss) =
      let rest = series_of ss in
      if eqb_ℤ s.ts (pos 0) then rest else record {
        ts = s.ts ∷ rest.ts;
        cpu = s.cpu_pct ∷ rest.cpu;
        mem = s.mem_pct ∷ rest.mem;
        disk = s.disk_pct ∷ rest.disk;
        rx = s.rx_rate ∷ rest.rx;
        tx = s.tx_rate ∷ rest.tx;
      }

  -- nodeMetrics, with the range parameter and its time.ParseDuration
  unfoldable pub node_metrics : String → String → Option ℤ → ℕ → Hub F → Reply (Series F) × Hub F
  unfolding parse_range range series_of
  node_metrics id range_text parsed now h =
      let seconds = parse_range range_text parsed (3_600 * 1_000_000_000) / 1_000_000_000 in
      (json (series_of (range id (sub_ℕ now seconds) (pos now) h.metrics)), h)

  -- a method of the store, on the hub
  abbrev pub on_store : {A : Type 0} → Tx A → Hub F → Result StoreError A × Hub F
  on_store tx h = ((tx h.store).0, record h { store = (tx h.store).1 })

  abbrev pub okay_or_404 : Result StoreError Unit × Hub F → Reply Okay × Hub F
  okay_or_404 (err e, h) = (not_found_or_500 e, h)
  okay_or_404 (ok _, h) = (okay_reply, h)

  -- patchNode, with the name of the body and strings.TrimSpace
  unfoldable pub patch_node :
      (String → String) → String → Option String → Hub F → Reply Okay × Hub F
  unfolding rename_node not_found_or_500
  patch_node trim id none h = (http_err 400 (text "name required"), h)
  patch_node trim id (some name) h =
      if trim name is ""
      then (http_err 400 (text "name required"), h)
      else okay_or_404 (on_store (rename_node id (trim name)) h)

  abbrev pub okay_or_hub_404 : Result HubError Unit × Hub F → Reply Okay × Hub F
  okay_or_hub_404 (err e, h) = (hub_not_found_or_500 e, h)
  okay_or_hub_404 (ok _, h) = (okay_reply, h)

-- deleteNode
unfoldable pub delete_node : {F : Type 0} → World F → String → ℕ → Hub F → Reply Okay × Hub F
unfolding Admin.delete_node not_found_or_500
delete_node w id now h = okay_or_hub_404 (Admin.delete_node w id now h)
