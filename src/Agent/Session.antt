-- ===== src/Agent/Session.antt =====
-- The agent's session with the hub, internal/agent/agent.go: what it does on each message. The
-- WireGuard manager is the interface of wg.go.
pub mod Register
pub mod Reconnect
pub mod Dispatch
pub mod Backoff
use Prim.Native.String.{◌++◌ as text_append}
use light_pn.Prelude.{
  ℕ, ◌*◌, String, Bool, true, false, not, ◌&&◌, ◌||◌, List, [], ◌∷◌, ◌++◌, Option, none, some,
  Result, ok, err, ℤ, ltb, leb, if◌then◌else◌, ◌is◌,
}
use light_pn.Prelude.Map.{Map, insert}
use light_pn.Proto.{
  Bytes, Envelope, Json, PeerSpec, PeerRemoveData, WgPeerStatus, RegisterData, RegisterAckData,
  AckData, RotateCertData, ConfResultData, SvcActionData, SvcResultData, SvcStatus, new_envelope,
}
use light_pn.Proto.Kind
use light_pn.Agent.Exit.{ExitController, Pick, set_link_exit, clear_by_link}
use light_pn.Agent.Exit as Exit
use light_pn.Agent.SvcCmd.{KeyFile, Crypto}
use light_pn.Agent.Registry.{RegLib, load_svc_reg}
use light_pn.Agent.SvcAction.{SvcManager, Refusal, collect_svc_status, handle_svc_action}
use light_pn.Agent.ToolConf.{FileSystem, collect_tool_conf}
use light_pn.Agent.Sealed.{Sealing, Failure, seal_tool_conf}

-- WGManager on a state `W`, without Init; `none` is a nil error
pub record WgManager (W : Type 0) : Type 0 where
  pub reconcile : List PeerSpec → W → Option String × W
  pub add_peer : PeerSpec → W → Option String × W
  pub update_peer : PeerSpec → W → Option String × W
  pub remove_peer : String → W → Option String × W
  pub status : W → Result String (List WgPeerStatus)
  pub rotate : W → Result String String × W
  pub teardown : W → Option String × W

-- What the agent uses beside its own parts. `I` is the identity directory, `S` systemd. `send` is the
-- error of a write to the connection, `bad_json` and `unmarshalable` the texts of encoding/json.
pub record Env (W S I : Type 0) : Type 0 where
  pub wg : WgManager W
  pub peer_spec : Json PeerSpec
  pub peer_remove : Json PeerRemoveData
  pub rotate_cert : Json RotateCertData
  pub acks : Json AckData
  pub conf_result : Json ConfResultData
  pub svc_action : Json SvcActionData
  pub svc_result : Json SvcResultData
  pub register : Json RegisterData
  pub register_ack : Json RegisterAckData
  pub bad_json : String
  pub unmarshalable : String
  pub send : Envelope → Option String
  pub builds : String → Bool
  pub pick : Pick
  pub update_cert : String → I → Option String × I
  pub destroy : I → Option String × I
  pub view_key : I → KeyFile
  pub registry : I → Option Bytes
  pub view_key_path : String
  pub iface : String
  pub fs : FileSystem
  pub reg_lib : RegLib
  pub crypto : Crypto
  pub sealing : Sealing
  pub systemd : Option (SvcManager S)
  pub show_refusal : Refusal → String
  pub show_failure : Failure → String

-- the state of Agent; `out` are the frames that were written to the connection
pub record Agent (W S I : Type 0) : Type 0 where
  pub wg : W
  pub exit : Option ExitController
  pub svc_seen : Map ℤ
  pub svc : S
  pub identity : I
  pub wg_pub : String
  pub wg_listen_port : ℤ
  pub out : List Envelope

-- how a session ends: with ErrKicked, or with another error
pub data End : Type 0 where
  kicked : End
  failed : String → End

-- the AckData of an operation's error
abbrev pub ack_of : Option String → AckData
ack_of none = record { okay = true; error = "" }
ack_of (some e) = record { okay = false; error = e }

-- the exit address that a peer designates
abbrev pub exit_of : PeerSpec → String
exit_of spec = if spec.exit && not (spec.exit_addr is "") then spec.exit_addr else ""

abbrev peers_or_nil : Result String (List WgPeerStatus) → Option (List WgPeerStatus)
peers_or_nil (ok ps) = some ps
peers_or_nil (err _) = none

abbrev pub on_exit :
    (ExitController → ExitController) → Option ExitController → Option ExitController
on_exit f none = none
on_exit f (some ec) = some (f ec)

module _ {W S I : Type 0} (v : Env W S I) where
  abbrev sent : Envelope → Agent W S I → Option String → Option End × Agent W S I
  sent env a none = (none, record a { out = a.out ++ env ∷ [] })
  sent env a (some e) = (some (failed e), a)

  abbrev pub write_new : Option Envelope → Agent W S I → Option End × Agent W S I
  write_new none a = (some (failed v.unmarshalable), a)
  write_new (some env) a = sent env a (v.send env)

  -- ack
  unfoldable pub ack : String → Option String → Agent W S I → Option End × Agent W S I
  unfolding new_envelope
  ack id op_err a = write_new (new_envelope v.acks Kind.ack id (ack_of op_err)) a

  -- the exit designation that a peer carries, when it was applied
  abbrev designate : PeerSpec → Option String → Option ExitController → Option ExitController
  designate spec (some _) ec = ec
  designate spec none ec = on_exit (set_link_exit v.builds v.pick spec.link_id (exit_of spec)) ec

  abbrev peer_applied :
      String → PeerSpec → Option String × W → Agent W S I → Option End × Agent W S I
  peer_applied id spec (e, wg) a = ack id e (record a { wg = wg; exit = designate spec e a.exit })

  -- the cases of peer_add and peer_update
  unfoldable pub on_peer :
      (PeerSpec → W → Option String × W) → Envelope → Agent W S I → Option End × Agent W S I
  unfolding ack set_link_exit
  on_peer apply env a = elim (v.peer_spec.unmarshal env.payload) [
    | none ↦ ack env.id (some v.bad_json) a
    | some spec ↦ peer_applied env.id spec (apply spec a.wg) a
  ]

  abbrev peer_removed : String → String → Option String × W → Agent W S I → Option End × Agent W S I
  peer_removed id link (e, wg) a =
      ack id e (record a { wg = wg; exit = on_exit (clear_by_link v.builds v.pick link) a.exit })

  -- the case of peer_remove
  unfoldable pub on_peer_remove : Envelope → Agent W S I → Option End × Agent W S I
  unfolding ack clear_by_link
  on_peer_remove env a = elim (v.peer_remove.unmarshal env.payload) [
    | none ↦ ack env.id (some v.bad_json) a
    | some d ↦ peer_removed env.id d.link_id (v.wg.remove_peer d.wg_pubkey a.wg) a
  ]

  abbrev pub key_rotated : Result String String × W → Agent W S I → Option End × Agent W S I
  key_rotated (err e, wg) a = (some (failed (text_append "rotate_wg: " e)), record a { wg = wg })
  key_rotated (ok key, wg) a =
      (some (failed "rotate_wg: re-registering with fresh key"), record a { wg = wg; wg_pub = key })

  -- the case of rotate_wg: the error of the ack is ignored
  unfoldable pub on_rotate_wg : Envelope → Agent W S I → Option End × Agent W S I
  unfolding ack
  on_rotate_wg env a = let acked = (ack env.id none a).1 in key_rotated (v.wg.rotate acked.wg) acked

  -- the case of rotate_cert
  unfoldable pub on_rotate_cert : Envelope → Agent W S I → Option End × Agent W S I
  unfolding ack
  on_rotate_cert env a = elim (v.rotate_cert.unmarshal env.payload) [
    | none ↦ ack env.id (some v.bad_json) a
    | some d ↦
        let r = v.update_cert d.cert_pem a.identity in ack env.id r.0 (record a { identity = r.1 })
  ]

  abbrev pub collected : Agent W S I → ConfResultData
  unfolding collect_tool_conf load_svc_reg
  collected a =
      collect_tool_conf v.fs v.iface a.wg_pub a.wg_listen_port (peers_or_nil (v.wg.status a.wg))
        (load_svc_reg v.reg_lib (v.registry a.identity))

  abbrev pub services_of : Agent W S I → List SvcStatus
  unfolding collect_svc_status
  services_of a = collect_svc_status v.reg_lib (v.registry a.identity) v.systemd a.svc

  -- the answer to conf_get, with the random nonce
  unfoldable pub conf_answer : Option Bytes → Agent W S I → ConfResultData
  unfolding seal_tool_conf
  conf_answer random a =
      seal_tool_conf v.crypto v.sealing v.view_key_path v.show_failure (v.view_key a.identity)
        (collected a) (services_of a) random

  -- the case of conf_get
  unfoldable pub on_conf_get : Option Bytes → Envelope → Agent W S I → Option End × Agent W S I
  unfolding conf_answer new_envelope
  on_conf_get random env a =
      write_new (new_envelope v.conf_result Kind.conf_result env.id (conf_answer random a)) a

  abbrev svc_answered :
      String → (SvcResultData × S) × Map ℤ → Agent W S I → Option End × Agent W S I
  svc_answered id ((res, svc), seen) a =
      write_new (new_envelope v.svc_result Kind.svc_result id res)
        (record a { svc = svc; svc_seen = seen })

  -- the case of svc_action
  unfoldable pub on_svc_action : ℕ → Envelope → Agent W S I → Option End × Agent W S I
  unfolding ack handle_svc_action new_envelope
  on_svc_action now env a = elim (v.svc_action.unmarshal env.payload) [
    | none ↦ ack env.id (some v.bad_json) a
    | some d ↦
        svc_answered env.id
          (handle_svc_action v.show_refusal v.crypto v.reg_lib (v.view_key a.identity)
            (v.registry a.identity) v.systemd d now a.svc_seen a.svc)
          a
  ]

  -- the case of kick
  unfoldable pub on_kick : Agent W S I → Option End × Agent W S I
  on_kick a =
      (some kicked, record a { wg = (v.wg.teardown a.wg).1; identity = (v.destroy a.identity).1 })

  -- dispatch; `none` keeps the session
  unfoldable pub dispatch : Option Bytes → ℕ → Envelope → Agent W S I → Option End × Agent W S I
  unfolding on_peer on_peer_remove on_rotate_wg on_rotate_cert on_conf_get on_svc_action on_kick
  dispatch random now env a =
      if env.kind is Kind.peer_add
      then on_peer v.wg.add_peer env a
      else if env.kind is Kind.peer_update
      then on_peer v.wg.update_peer env a
      else if env.kind is Kind.peer_remove
      then on_peer_remove env a
      else if env.kind is Kind.rotate_wg
      then on_rotate_wg env a
      else if env.kind is Kind.rotate_cert
      then on_rotate_cert env a
      else if env.kind is Kind.conf_get
      then on_conf_get random env a
      else if env.kind is Kind.svc_action
      then on_svc_action now env a
      else if env.kind is Kind.kick
      then on_kick a
      else (none, a)
