-- ===== src/Hub/Tests/Joining.antt =====
-- A node enrolls and connects.
use light_pn.Prelude.{ℕ, ◌*◌, ◌≡◌, refl, [], ◌∷◌, none, some, ok, err, true, false, pos}
use light_pn.Proto.{EnrollData, EnrollAckData, Envelope, new_envelope}
use light_pn.Proto.Kind
use light_pn.Pki.{X509, sign_csr}
use light_pn.Store.Tokens.{consume_token}
use light_pn.Store.Ipam.{Prefix}
use light_pn.Hub.Admitted.{address, enroll_frame-admits}
use light_pn.Store.{Node, token_used}
use light_pn.Hub.State.{Hub, World}
use light_pn.Hub.Removal.{is_revoked}
use light_pn.Hub.Enroll.{enroll_frame, replies, handle_conn, admits}
use light_pn.Hub.Tests.{some_json, number, world, hub, request}

abbrev joiner : EnrollData
joiner = record { token = "lp_x"; hostname = "c"; csr_pem = "csr" }

abbrev small : Prefix
small = record { addr = 40; bits = 29 }

abbrev enrolling : World Unit
enrolling = record world {
  enroll = some_json joiner;
  netip = record { parse_prefix = λ _. some small; to_string = λ _. "ip3" };
}

abbrev ca : X509 Unit
ca = record {
  decode_pem = λ s. some s;
  parse_request = λ s. some tt;
  check_signature = λ c. true;
  create = λ t c. some "der";
  encode_pem = λ s. s;
  text_16 = number;
}

abbrev hub_with_token : Hub Unit
hub_with_token = record hub {
  store = record hub.store {
    tokens = record { id = "t"; hash = "lp_x"; note = ""; expires_at = 100; used_at = none } ∷ [];
  };
  next_id = 2;
}

abbrev answer : Envelope
answer = record { v = pos 1; kind = Kind.enroll_ack; id = "r"; payload = [] }

abbrev joined : Hub Unit
joined = (enroll_frame enrolling ca (some request) "local" "ca" 50 1 hub_with_token).1

answered :
    enroll_frame enrolling ca (some request) "local" "ca" 50 1 hub_with_token
    ≡ (replies answer, joined)
unfolding enroll_frame
answered = refl

enroll_frame-admits_example :
    (e : Envelope) × (d : EnrollData) × (n : Node) × (ack : EnrollAckData) × ((some request)
      ≡ some e)
    × (enrolling.enroll.unmarshal e.payload ≡ some d)
    × ((consume_token enrolling.sha256 d.token 50 hub_with_token.store).0 ≡ ok tt)
    × ((later : ℕ)
        → consume_token enrolling.sha256 d.token later joined.store
          ≡ (err token_used, joined.store))
    × (address enrolling 50 hub_with_token
          (consume_token enrolling.sha256 d.token 50 hub_with_token.store).1
        ≡ ok n.overlay_ip)
    × (new_envelope enrolling.enroll_ack Kind.enroll_ack e.id ack ≡ some answer)
    × (ack.node_id ≡ n.id)
    × (sign_csr ca d.csr_pem n.id (hub_with_token.cfg.cert_ttl_days * 86_400) 50 1
        ≡ ok (ack.cert_pem, n.cert_serial))
    × (is_revoked n.cert_serial hub_with_token ≡ false
        → handle_conn (some (record { common_name = n.id; serial = n.cert_serial })) joined
          ≡ admits n)
enroll_frame-admits_example =
    enroll_frame-admits enrolling ca (some request) "local" "ca" 50 1 hub_with_token joined answer
      answered
