-- ===== src/Hub/Requests.antt =====
-- What the panel asks of an agent: RotateWG and requestReply of internal/hub/hub.go.
use light_pn.Prelude.{◌+◌, String, Option, none, some, Result, ok, err}
use light_pn.Prelude.Map.{lookup, insert, delete}
use light_pn.Proto.{Bytes, Json, SvcActionData, new_envelope}
use light_pn.Proto.Kind
use light_pn.Hub.State.{Hub, World, session_of}
use light_pn.Hub.Removal.{send_to}
use light_pn.Hub.Admin.{HubError, marshal_failed, node_offline}

module _ {F : Type 0} (w : World F) where
  -- RotateWG
  unfoldable pub rotate_wg : String → Hub F → Result HubError Unit × Hub F
  unfolding send_to new_envelope
  rotate_wg id h = elim (session_of h id) [
    | none ↦ (err node_offline, h)
    | some r ↦
        let h' = record h { next_id = h.next_id + 1 } in
        elim (new_envelope w.empty Kind.rotate_wg (w.ulid h.next_id) tt) [
          | none ↦ (err marshal_failed, h')
          | some env ↦ (ok tt, send_to r env h')
        ]
  ]

  -- requestReply up to the wait for the reply: the id of the request that waits
  unfoldable pub ask :
      {A : Type 0} → Json A → String → String → A → Hub F → Result HubError String × Hub F
  unfolding send_to new_envelope
  ask j id kind a h = elim (session_of h id) [
    | none ↦ (err node_offline, h)
    | some r ↦
        let req = w.ulid h.next_id in
        let h' = record h { next_id = h.next_id + 1 } in
        elim (new_envelope j kind req a) [
          | none ↦ (err marshal_failed, record h' { conf_wait = delete req h'.conf_wait })
          | some env ↦
              (ok req, send_to r env (record h' { conf_wait = insert req id h'.conf_wait }))
        ]
  ]

  -- RequestToolConf and RequestSvcAction
  unfoldable pub request_tool_conf : String → Hub F → Result HubError String × Hub F
  unfolding ask
  request_tool_conf id h = ask w.empty id Kind.conf_get tt h

  unfoldable pub request_svc_action :
      String → SvcActionData → Hub F → Result HubError String × Hub F
  unfolding ask
  request_svc_action id d h = ask w.svc_action id Kind.svc_action d h

module _ {F : Type 0} where
  -- the rest of requestReply: the reply that has come, or `none` on the timeout; both clean up. Where
  -- both are ready, this is the run in which select takes the reply.
  unfoldable pub finish_request : String → Hub F → Option Bytes × Hub F
  finish_request req h = (
    lookup req h.replies,
    record h { conf_wait = delete req h.conf_wait; replies = delete req h.replies },
  )
