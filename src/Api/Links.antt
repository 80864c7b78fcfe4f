-- ===== src/Api/Links.antt =====
-- The panel's link handlers, internal/hub/api.go: listLinks to deleteLink.
pub mod Create
use light_pn.Prelude.{
  ℕ, String, Bool, true, false, ◌||◌, List, [], ◌∷◌, map, Option, none, some, Result, ok, err, ℤ,
  if◌then◌else◌, ◌is◌,
}
use Prim.Native.String.{◌++◌ as text_append}
use light_pn.Store.{Node, Link, Store, StoreError, not_found}
use light_pn.Store.Nodes.{get_node}
use light_pn.Store.Links.{list_links}
use light_pn.Hub.State.{Status, Hub, World}
use light_pn.Hub.Status.{link_status, link_runtime}
use light_pn.Hub.Admin.{HubError, refused, node_offline, marshal_failed, create_link, set_link_exit}
use light_pn.Hub.Admin as Admin
use light_pn.Api.{
  Reply, json, http_err, dropped, text, store_error, hub_error, not_found_or_500, Okay, okay_reply,
}
use light_pn.Api.Nodes.{okay_or_hub_404}

pub record LinkJson (F : Type 0) : Type 0 where
  pub id : String
  pub a : String
  pub b : String
  pub status : Status
  pub created_at : ℕ
  pub exit_node : String
  pub last_handshake : ℤ
  pub rx_rate : F
  pub tx_rate : F

-- the answers of setLinkExit and createLink
pub record ExitJson : Type 0 where
  pub id : String
  pub exit_node : String
  pub status : Status

pub record NewLink : Type 0 where
  pub id : String
  pub a : String
  pub b : String
  pub status : Status

pub record Ends : Type 0 where
  pub a : String
  pub b : String

abbrev exit_reply : HubError → Reply ExitJson
exit_reply (refused not_found) = http_err 404 (text "not found")
exit_reply e = http_err 400 (hub_error e)

abbrev pub is_live : Result StoreError Node → Bool
is_live (err _) = false
is_live (ok n) = if n.revoked then false else true

module _ {F : Type 0} where
  -- the loop of createLink over the two ends: the first that is no live node
  unfoldable pub unknown_node : List String → Hub F → Option String
  unfolding get_node
  unknown_node [] h = none
  unknown_node (id ∷ ids) h =
      let rest = unknown_node ids h in if is_live ((get_node id h.store).0) then rest else some id

module _ {F : Type 0} (w : World F) where
  abbrev with_runtime : Link → Status → ℤ × F × F → LinkJson F
  with_runtime l status (hs, rx, tx) = record {
    id = l.id;
    a = l.a;
    b = l.b;
    status = status;
    created_at = l.created_at;
    exit_node = l.exit_node;
    last_handshake = hs;
    rx_rate = rx;
    tx_rate = tx;
  }

  -- one entry of listLinks
  unfoldable pub link_json : ℕ → Hub F → Link → LinkJson F
  unfolding link_status link_runtime
  link_json now h l = with_runtime l (link_status l now h) (link_runtime w l.id h)

  abbrev listed : ℕ → Hub F → Result StoreError (List Link) → Reply (List (LinkJson F)) × Hub F
  listed now h (err e) = (http_err 500 (store_error e), h)
  listed now h (ok ls) = (json (map (link_json now h) ls), h)

  -- listLinks
  unfoldable pub list_links_reply : ℕ → Hub F → Reply (List (LinkJson F)) × Hub F
  unfolding list_links link_json
  list_links_reply now h = listed now h ((list_links h.store).0)

  abbrev exit_answered : ℕ → Option (Result HubError Link × Hub F) → Option (Reply ExitJson × Hub F)
  exit_answered now none = none
  exit_answered now (some (err e, h)) = some (exit_reply e, h)
  exit_answered now (some (ok l, h)) =
      some (json (record { id = l.id; exit_node = l.exit_node; status = link_status l now h }), h)

  -- setLinkExit, with the exit of the body; `none` is a panic of the hub
  unfoldable pub set_link_exit_reply :
      String → Option String → ℕ → Hub F → Option (Reply ExitJson × Hub F)
  unfolding set_link_exit link_status
  set_link_exit_reply id none now h = some (http_err 400 (text "bad request"), h)
  set_link_exit_reply id (some exit) now h = exit_answered now (set_link_exit w id exit now h)

  abbrev pub created : ℕ → Option (Result HubError Link × Hub F) → Option (Reply NewLink × Hub F)
  created now none = none
  created now (some (err e, h)) = some (http_err 409 (hub_error e), h)
  created now (some (ok l, h)) =
      some (json (record { id = l.id; a = l.a; b = l.b; status = link_status l now h }), h)

  abbrev pub create_known : Ends → ℕ → Hub F → Option String → Option (Reply NewLink × Hub F)
  create_known e now h (some id) = some (http_err 400 (text (text_append "unknown node " id)), h)
  create_known e now h none = created now (create_link w e.a e.b now h)

  -- createLink; `none` is a panic of the hub
  unfoldable pub create_link_reply : Option Ends → ℕ → Hub F → Option (Reply NewLink × Hub F)
  unfolding create_link link_status unknown_node
  create_link_reply none now h = some (http_err 400 (text "a and b node ids required"), h)
  create_link_reply (some e) now h =
      if e.a is "" || e.b is ""
      then some (http_err 400 (text "a and b node ids required"), h)
      else create_known e now h (unknown_node (e.a ∷ e.b ∷ []) h)

  -- deleteLink
  unfoldable pub delete_link_reply : String → Hub F → Reply Okay × Hub F
  unfolding Admin.delete_link not_found_or_500
  delete_link_reply id h = okay_or_hub_404 (Admin.delete_link w id h)
