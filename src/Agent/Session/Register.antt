-- ===== src/Agent/Session/Register.antt =====
-- The registration of the agent at the start of a session, internal/agent/agent.go. Of the errors
-- that refuse it, which are only logged, the fixed part of the text is kept.
use Prim.Native.String.{◌++◌ as text_append}
use light_pn.Prelude.{String, not, ◌&&◌, List, [], ◌∷◌, Option, none, some, ℤ, if◌then◌else◌, ◌is◌}
use light_pn.Prelude.Map.{Map, insert}
use light_pn.Proto.{Envelope, PeerSpec, new_envelope}
use light_pn.Proto.Kind
use light_pn.Agent.Exit as Exit
use light_pn.Agent.Session.{Env, Agent, End, failed, on_exit, write_new}

-- the loop of register over the peers
unfoldable pub exits_of : List PeerSpec → Map String → Map String
exits_of [] m = m
exits_of (s ∷ ss) m =
    exits_of ss (if s.exit && not (s.exit_addr is "") then insert s.link_id s.exit_addr m else m)

module _ {W S I : Type 0} (v : Env W S I) where
  abbrev registered : List PeerSpec → Option String × W → Agent W S I → Option End × Agent W S I
  registered specs (some e, wg) a =
      (some (failed (text_append "reconcile peers: " e)), record a { wg = wg })
  registered specs (none, wg) a = (
    none,
    record a {
      wg = wg;
      exit = on_exit (Exit.reconcile v.builds v.pick (exits_of specs [])) a.exit;
    },
  )

  -- the answer to register: an error, something else, or the peers
  unfoldable pub on_register_answer : Envelope → Agent W S I → Option End × Agent W S I
  unfolding exits_of Exit.reconcile
  on_register_answer resp a =
      if resp.kind is Kind.error
      then (some (failed "register rejected"), a)
      else if not (resp.kind is Kind.register_ack)
      then (some (failed "unexpected register response"), a)
      else elim (v.register_ack.unmarshal resp.payload) [
        | none ↦ (some (failed v.bad_json), a)
        | some ack ↦ registered ack.peers_expected (v.wg.reconcile ack.peers_expected a.wg) a
      ]

  abbrev answered : Option Envelope → Option End × Agent W S I → Option End × Agent W S I
  answered resp (some e, a) = (some e, a)
  answered none (none, a) = (some (failed "read register_ack"), a)
  answered (some resp) (none, a) = on_register_answer resp a

  -- register, with the ULID, the platform, the SOCKS port and the frame that is read then
  unfoldable pub register :
      String → String → ℤ → Option Envelope → Agent W S I → Option End × Agent W S I
  unfolding on_register_answer new_envelope
  register id os socks_port resp a = answered resp (
      write_new v
        (new_envelope v.register Kind.register id (record {
          wg_pubkey = a.wg_pub;
          wg_port = a.wg_listen_port;
          agent_version = "0.1.0";
          os = os;
          socks_port = socks_port;
        }))
        a)
