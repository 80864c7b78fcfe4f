-- ===== src/Api/Tests/Runs.antt =====
-- Concrete runs of the panel's API, internal/hub/api.go: a login, its session, and a new link.
use light_pn.Prelude.{
  ℕ, ◌+◌, ◌≤◌, String, ◌≡◌, ◌≢◌, ◌⊎◌, refl, [], ◌∷◌, ◌++◌, none, some, ltb, if◌then◌else◌, true,
  false,
}
use light_pn.Prelude.Map.{lookup, delete}
use light_pn.Proto.{Json}
use light_pn.Store.{Node, empty_store}
use light_pn.Store.Nodes.{get_node}
use light_pn.Store.Links.{sort_pair}
use light_pn.Store.Names.{get_admin_hash}
use light_pn.Hub.State.{Hub, World, defaults}
use light_pn.Api.{Reply, json, http_err, Message, Okay, okay_reply}
use light_pn.Api.Password.{PasswordLib, verify_password}
use light_pn.Api.Auth.{
  ApiServer, Credentials, session_ttl, new_api_server, unauthorized, auth, login_allowed, login,
  logout,
}
use light_pn.Api.Auth.Issued.{here, logged_in, Issued, auth-Issued}
use light_pn.Api.Auth.Session.{auth-login, auth-logout}
use light_pn.Api.Links.{NewLink, is_live, create_link_reply}
use light_pn.Api.Links.Create.{create_link_reply-outcome}

abbrev lib : PasswordLib
lib = record {
  id_key = λ password salt t m p n. some [];
  encode = λ b. "";
  decode = λ s. some [];
  bytes_of = λ s. [];
}

abbrev no_json : {A : Type 0} → Json A
no_json = record { marshal = λ _. some []; unmarshal = λ _. none }

abbrev world : World Unit
world = record {
  ulid = λ n. "l1";
  itoa = λ _. "51820";
  peer_spec = no_json;
  peer_remove = no_json;
  register = no_json;
  register_ack = no_json;
  heartbeats = no_json;
  acks = no_json;
  kick = λ _. [];
  errors = no_json;
  empty = no_json;
  svc_action = no_json;
  enroll = no_json;
  enroll_ack = no_json;
  netip = record { parse_prefix = λ _. none; to_string = λ _. "" };
  bad_range = "";
  sha256 = λ s. s;
  floats = record { nought = tt; percent = λ _ _. tt; rate = λ _ _. tt };
}

abbrev node : String → Node
node id = record {
  id = id;
  name = id;
  overlay_ip = id;
  cert_serial = "s";
  created_at = 1;
  last_seen = 1;
  revoked = false;
}

abbrev hub : Hub Unit
hub = record {
  cfg = defaults;
  store = record empty_store {
    nodes = node "b" ∷ node "a" ∷ [];
    admins =
        record { id = "1"; username = "admin"; pw_hash = "$argon2id$v=19$m=1,t=1,p=1$a$b" } ∷ [];
  };
  metrics = [];
  heap = [];
  sessions = [];
  links = [];
  last_wg = [];
  revoked = [];
  gc_done = [];
  conf_wait = [];
  replies = [];
  events = [];
  enroll_tries = [];
  next_id = 0;
}

abbrev admin : Credentials
admin = record { username = "admin"; password = "secret" }

abbrev step : Hub Unit → Reply Okay × Hub Unit
step h = (okay_reply, record h { next_id = 1 })

unfoldable after_login : ApiServer Unit
after_login = (login lib "1.2.3.4" (some admin) "tok" 5 (new_api_server hub)).1

auth-Issued_example :
    ((auth (some "tok") 7 step after_login).0 ≡ unauthorized)
      × ((auth (some "tok") 7 step after_login).1.hub ≡ after_login.hub)
    ⊎ ((tok : String) × (exp : ℕ) × ((some "tok") ≡ some tok)
        × (7 ≤ exp)
        × Issued lib hub tok exp after_login
        × (auth (some "tok") 7 step after_login
            ≡ ((step after_login.hub).0, record after_login { hub = (step after_login.hub).1 })))
unfolding after_login
auth-Issued_example =
    auth-Issued lib hub after_login (logged_in "1.2.3.4" (some admin) "tok" 5 tt here) (some "tok")
      7 step

accepted : (login lib "1.2.3.4" (some admin) "tok" 5 (new_api_server hub)).0.1 ≡ okay_reply
unfolding login login_allowed get_admin_hash verify_password lookup
accepted = refl

auth-login_example : auth (some "tok") 7 step after_login ≡ (
    if ltb (5 + session_ttl) 7
    then (unauthorized, record after_login { sessions = delete "tok" after_login.sessions })
    else ((step after_login.hub).0, record after_login { hub = (step after_login.hub).1 }))
unfolding after_login
auth-login_example =
    auth-login lib "1.2.3.4" (some admin) "tok" 5 (new_api_server hub) after_login accepted here 7
      step

auth-logout_example :
    ((auth (some "tok") 7 step (logout (some "tok") after_login).1).0 ≡ unauthorized)
    × ((auth (some "tok") 7 step (logout (some "tok") after_login).1).1.hub
        ≡ (logout (some "tok") after_login).1.hub)
auth-logout_example =
    auth-logout lib "tok" after_login (logout (some "tok") after_login).1 here 7 step

create_link_reply-outcome_example :
    ((code : ℕ) × (msg : Message) × (h' : Hub Unit) × (create_link_reply world
          (some (record { a = "b"; b = "a" }))
          9
          hub
        ≡ some (http_err code msg, h'))
      × (h'.store ≡ hub.store))
    ⊎ ((j : NewLink) × (h' : Hub Unit) × (create_link_reply world
            (some (record { a = "b"; b = "a" }))
            9
            hub
          ≡ some (json j, h'))
        × (◌≢◌ {A = String} "b" "a")
        × (is_live ((get_node "b" hub.store).0) ≡ true)
        × (is_live ((get_node "a" hub.store).0) ≡ true)
        × ((j.a, j.b) ≡ sort_pair "b" "a")
        × (h'.store ≡ record hub.store {
          links =
              hub.store.links
              ++ record { id = j.id; a = j.a; b = j.b; created_at = 9; exit_node = "" } ∷ [];
        }))
create_link_reply-outcome_example =
    create_link_reply-outcome world (record { a = "b"; b = "a" }) 9 hub
