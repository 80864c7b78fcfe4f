-- ===== src/Hub/Control.antt =====
-- The life of a session, internal/hub/control.go: runSession and its loop, sessionWriter,
-- dropSession, handleAck, and handleConfResult of internal/hub/hub.go.
use Prim.Native.String.{◌++◌ as text_append}
use light_pn.Prelude.{
  ℕ, String, Bool, false, not, ◌||◌, [], ◌∷◌, ◌++◌, Option, none, some, ok, err, eqb_ℤ,
  if◌then◌else◌, ◌is◌, length, ◌==◌,
}
use light_pn.Prelude.Map.{lookup, insert, delete}
use light_pn.Proto.{Bytes, Envelope, AckData, version}
use light_pn.Proto.Kind
use light_pn.Proto.Code
use light_pn.Store.{Node}
use light_pn.Store.Links.{get_link}
use light_pn.Hub.State.{
  online, offline, AckRef, Session, link_changed, node_changed, Hub, World, session_of, session_at,
  set_session,
}
use light_pn.Hub.Push.{close}
use light_pn.Hub.Status.{link_status}
use light_pn.Hub.Session.{publish, touch, send_error, ack_link, handle_register, handle_heartbeat}

-- one round of sessionWriter; `sent` says whether the frame was written
unfoldable pub write_next : Bool → Session → Option Envelope × Session
unfolding close
write_next sent s = if s.closed then (none, s) else elim s.out [
  | [] ↦ (none, s)
  | e ∷ es ↦ (some e, if sent then record s { out = es } else close (record s { out = es }))
]

abbrev pub is_ref : ℕ → Option ℕ → Bool
is_ref r none = false
is_ref r (some q) = q == r

module _ {F : Type 0} where
  -- s.close()
  unfoldable pub close_session : ℕ → Hub F → Hub F
  unfolding close
  close_session r h = elim (session_at h r) [ none ↦ h | some s ↦ set_session r (close s) h ]

  abbrev pub close_old : Option ℕ → Hub F → Hub F
  close_old none h = h
  close_old (some r) h = close_session r h

  -- the start of runSession: the place of the new session, and the hub
  unfoldable pub open_session : Node → String → ℕ → Hub F → ℕ × Hub F
  unfolding close_session
  open_session n ip now h =
      let h' = close_old (session_of h n.id) h in
      let s : Session = record {
        node = n;
        remote_ip = ip;
        out = [];
        direct = [];
        registered = false;
        agent_version = "";
        os = "";
        last_hb = now;
        hb_wg = [];
        pending_acks = [];
        closed = false;
      } in
      (
        length h'.heap,
        publish (node_changed n.id (some online)) (record h' {
          heap = h'.heap ++ s ∷ [];
          sessions = insert n.id (length h'.heap) h'.sessions;
          gc_done = delete n.id h'.gc_done;
        }),
      )

  -- if h.sessions[s.node.ID] == s { delete(h.sessions, s.node.ID) }
  unfoldable pub forget : ℕ → String → Hub F → Hub F
  forget r id h =
      if is_ref r (session_of h id) then record h { sessions = delete id h.sessions } else h

  -- dropSession
  unfoldable pub drop_session : ℕ → ℕ → Hub F → Hub F
  unfolding close_session forget
  drop_session r now h = elim (session_at h r) [
    | none ↦ h
    | some s ↦
        publish (node_changed s.node.id (some offline))
          (touch s.node.id now (forget r s.node.id (close_session r h)))
  ]

  -- a link whose status is published, if it is still in the table
  unfoldable pub publish_link : String → ℕ → Hub F → Hub F
  unfolding get_link link_status
  publish_link id now h = elim ((get_link id h.store).0) [
    | err _ ↦ h
    | ok l ↦ publish (link_changed l.id (some (link_status l now h))) h
  ]

  abbrev pub ack_ref : Option AckRef → Bool → ℕ → Hub F → Hub F
  ack_ref none okay now h = h
  ack_ref (some ref) okay now h =
      if okay then publish_link ref.link_id now (ack_link ref.link_id ref.side h) else h

  -- handleAck, once the payload is decoded
  unfoldable pub take_ack : ℕ → Session → String → AckData → ℕ → Hub F → Hub F
  unfolding publish_link ack_link
  take_ack r s id d now h =
      ack_ref (lookup id s.pending_acks) d.okay now
        (set_session r (record s { pending_acks = delete id s.pending_acks }) h)

  unfoldable pub handle_ack : World F → ℕ → Envelope → ℕ → Hub F → Hub F
  unfolding take_ack
  handle_ack w r env now h = elim (session_at h r) [
    | none ↦ h
    | some s ↦ elim (w.acks.unmarshal env.payload) [
      | none ↦ h
      | some d ↦ take_ack r s env.id d now h
    ]
  ]

  abbrev pub deliver : String → String → Bytes → Option String → Hub F → Hub F
  deliver id me reply none h = h
  deliver id me reply (some node) h =
      if node is me
      then record h { conf_wait = delete id h.conf_wait; replies = insert id reply h.replies }
      else h

  -- handleConfResult
  unfoldable pub handle_conf_result : ℕ → Envelope → Hub F → Hub F
  handle_conf_result r env h = elim (session_at h r) [
    | none ↦ h
    | some s ↦ deliver env.id s.node.id env.payload (lookup env.id h.conf_wait) h
  ]

-- how a round of the loop of runSession ends
pub data Round (F : Type 0) : Type 0 where
  panics : Round F
  returns continues : Hub F → Round F

module _ {F : Type 0} where
  abbrev pub beaten : Option (Hub F) → Round F
  beaten none = panics
  beaten (some h) = continues h

module _ {F : Type 0} (w : World F) where
  -- the switch on the message's type
  unfoldable pub dispatch : ℕ → Envelope → ℕ → Hub F → Round F
  unfolding handle_register handle_heartbeat handle_ack handle_conf_result send_error
  dispatch r env now h =
      if env.kind is Kind.register
      then continues (handle_register w r env now h)
      else if env.kind is Kind.heartbeat
      then beaten (handle_heartbeat w r env now h)
      else if env.kind is Kind.ack
      then continues (handle_ack w r env now h)
      else if env.kind is Kind.conf_result || env.kind is Kind.svc_result
      then continues (handle_conf_result r env h)
      else continues
          (send_error w r Code.unknown_type (text_append "unknown message type " env.kind) h)

  -- one round, on the frame that was read, if any
  unfoldable pub round : ℕ → Option Envelope → ℕ → Hub F → Round F
  unfolding dispatch send_error
  round r none now h = returns h
  round r (some env) now h =
      if not (eqb_ℤ env.v version)
      then returns (send_error w r Code.version_unsupported "unsupported protocol version" h)
      else dispatch r env now h
