-- ===== src/Agent/Tests/Messages.antt =====
-- Concrete runs of the agent's session, internal/agent/agent.go.
use light_pn.Prelude.{ℕ, String, true, List, [], ◌∷◌, Option, none, some, ok, pos}
use light_pn.Proto.{Envelope, Json}
use light_pn.Agent.SvcCmd.{content}
use light_pn.Agent.Session.{WgManager, Env, Agent, End, kicked, failed, dispatch}
use light_pn.Agent.Session.Dispatch.{Answers, dispatch-Answers}
use light_pn.Agent.Tests.{crypto, lib, first_entry}
use light_pn.Agent.Tests.Conf.{files, systemd, sealing}

abbrev manager : WgManager Unit
manager = record {
  reconcile = λ specs w. (none, w);
  add_peer = λ spec w. (none, w);
  update_peer = λ spec w. (none, w);
  remove_peer = λ key w. (none, w);
  status = λ w. ok [];
  rotate = λ w. (ok "new", w);
  teardown = λ w. (none, w);
}

abbrev json_of : {A : Type 0} → Json A
json_of = record { marshal = λ _. some (1 ∷ []); unmarshal = λ _. none }

abbrev env : Env Unit (List (String × String)) Unit
env = record {
  wg = manager;
  peer_spec = json_of;
  peer_remove = json_of;
  rotate_cert = json_of;
  acks = json_of;
  conf_result = json_of;
  svc_action = json_of;
  svc_result = json_of;
  register = json_of;
  register_ack = json_of;
  bad_json = "bad";
  unmarshalable = "bad";
  send = λ e. none;
  builds = λ a. true;
  pick = first_entry;
  update_cert = λ pem i. (none, i);
  destroy = λ i. (none, i);
  view_key = λ i. content [];
  registry = λ i. none;
  view_key_path = "view.key";
  iface = "lightpn0";
  fs = files;
  reg_lib = lib;
  crypto = crypto;
  sealing = sealing;
  systemd = some systemd;
  show_refusal = λ r. "refused";
  show_failure = λ f. "failed";
}

abbrev agent : Agent Unit (List (String × String)) Unit
agent = record {
  wg = tt;
  exit = none;
  svc_seen = [];
  svc = [];
  identity = tt;
  wg_pub = "key";
  wg_listen_port = pos 51820;
  out = [];
}

abbrev conf_get : Envelope
conf_get = record { v = pos 1; kind = "conf_get"; id = "r1"; payload = [] }

dispatch-Answers_example :
    Answers env "r1" [] (dispatch env (some (9 ∷ [])) 1100 conf_get agent).1.out
dispatch-Answers_example = dispatch-Answers env (some (9 ∷ [])) 1100 conf_get agent

abbrev sessions : List (Option End × ℕ × Unit {0})
sessions = (some (failed "dial hub"), 5, tt) ∷ (some kicked, 7, tt) ∷ []

-- a jitter of one
abbrev steady : ℕ → Unit {0} → ℕ
steady b _ = b
