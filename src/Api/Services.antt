-- ===== src/Api/Services.antt =====
-- What the panel asks of an agent, and the display names of services, internal/hub/api.go:
-- nodeToolConf to rotateWG.
use light_pn.Prelude.{
  ℕ, String, ◌||◌, List, Option, none, some, Result, ok, err, ltb, if◌then◌else◌, ◌is◌,
}
use light_pn.Prelude.Map.{Map}
use light_pn.Proto.{Bytes, SvcActionData}
use light_pn.Store.{Node, StoreError}
use light_pn.Store.Nodes.{get_node}
use light_pn.Store.Names.{svc_names, set_svc_name, prune_svc_names}
use light_pn.Hub.State.{Hub, World}
use light_pn.Hub.Admin.{HubError}
use light_pn.Hub.Requests.{rotate_wg, request_tool_conf, request_svc_action, finish_request}
use light_pn.Api.{
  Reply, json, http_err, text, store_error, hub_error, conf_timeout, not_found_or_500, Okay,
  okay_reply,
}
use light_pn.Api.Nodes.{on_store}

pub record NameBody : Type 0 where
  pub alias : String
  pub display : String

-- {"removed": n}
pub record Removed : Type 0 where
  pub removed : ℕ

module _ {F : Type 0} where
  -- the end of both requests: the agent's reply as it came, or 504 on the timeout
  abbrev answered : Option Bytes × Hub F → Reply Bytes × Hub F
  answered (none, h) = (http_err 504 conf_timeout, h)
  answered (some b, h) = (json b, h)

  -- `meanwhile` is what happens to the hub while the handler waits for the reply
  abbrev awaited : (Hub F → Hub F) → Result HubError String × Hub F → Reply Bytes × Hub F
  awaited meanwhile (err e, h) = (http_err 409 (hub_error e), h)
  awaited meanwhile (ok req, h) = answered (finish_request req (meanwhile h))

module _ {F : Type 0} (w : World F) where
  abbrev conf_asked :
      String → (Hub F → Hub F) → Hub F → Result StoreError Node → Reply Bytes × Hub F
  conf_asked id meanwhile h (err e) = (not_found_or_500 e, h)
  conf_asked id meanwhile h (ok _) = awaited meanwhile (request_tool_conf w id h)

  -- nodeToolConf
  unfoldable pub node_tool_conf : String → (Hub F → Hub F) → Hub F → Reply Bytes × Hub F
  unfolding get_node request_tool_conf finish_request not_found_or_500
  node_tool_conf id meanwhile h = conf_asked id meanwhile h ((get_node id h.store).0)

  abbrev svc_asked :
      String
      → Option SvcActionData
      → (Hub F → Hub F)
      → Hub F
      → Result StoreError Node
      → Reply Bytes × Hub F
  svc_asked id body meanwhile h (err e) = (not_found_or_500 e, h)
  svc_asked id none meanwhile h (ok _) = (http_err 400 (text "bad sealed command"), h)
  svc_asked id (some d) meanwhile h (ok _) =
      if d.nonce is "" || d.ct is ""
      then (http_err 400 (text "bad sealed command"), h)
      else awaited meanwhile (request_svc_action w id d h)

  -- nodeSvcAction
  unfoldable pub node_svc_action :
      String → Option SvcActionData → (Hub F → Hub F) → Hub F → Reply Bytes × Hub F
  unfolding get_node request_svc_action finish_request not_found_or_500
  node_svc_action id body meanwhile h = svc_asked id body meanwhile h ((get_node id h.store).0)

  abbrev rotated : Result HubError Unit × Hub F → Reply Okay × Hub F
  rotated (err e, h) = (http_err 409 (hub_error e), h)
  rotated (ok _, h) = (okay_reply, h)

  -- rotateWG
  unfoldable pub rotate_wg_reply : String → Hub F → Reply Okay × Hub F
  unfolding rotate_wg
  rotate_wg_reply id h = rotated (rotate_wg w id h)

module _ {F : Type 0} where
  -- 500 on an error of the store
  abbrev pub or_500 : {A : Type 0} → Result StoreError A × Hub F → Reply A × Hub F
  or_500 (err e, h) = (http_err 500 (store_error e), h)
  or_500 (ok a, h) = (json a, h)

  -- getSvcNames
  unfoldable pub get_svc_names : String → Hub F → Reply (Map String) × Hub F
  unfolding svc_names
  get_svc_names id h = or_500 (on_store (svc_names id) h)

  abbrev okay_or_500 : Result StoreError Unit × Hub F → Reply Okay × Hub F
  okay_or_500 (err e, h) = (http_err 500 (store_error e), h)
  okay_or_500 (ok _, h) = (okay_reply, h)

  -- setSvcName, with strings.TrimSpace and the number of bytes of a text
  unfoldable pub set_svc_name_reply :
      (String → String) → (String → ℕ) → String → Option NameBody → Hub F → Reply Okay × Hub F
  unfolding set_svc_name
  set_svc_name_reply trim byte_length id none h = (http_err 400 (text "alias required"), h)
  set_svc_name_reply trim byte_length id (some b) h =
      if b.alias is ""
      then (http_err 400 (text "alias required"), h)
      else if ltb 64 (byte_length b.display)
      then (http_err 400 (text "display name too long"), h)
      else okay_or_500 (on_store (set_svc_name id b.alias (trim b.display)) h)

  abbrev counted : Result StoreError ℕ × Hub F → Reply Removed × Hub F
  counted (err e, h) = (http_err 500 (store_error e), h)
  counted (ok n, h) = (json (record { removed = n }), h)

  -- pruneSvcNames, with the aliases of the body
  unfoldable pub prune_svc_names_reply :
      String → Option (List String) → Hub F → Reply Removed × Hub F
  unfolding prune_svc_names
  prune_svc_names_reply id none h = (http_err 400 (text "bad body"), h)
  prune_svc_names_reply id (some aliases) h = counted (on_store (prune_svc_names id aliases) h)
