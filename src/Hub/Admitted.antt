-- ===== src/Hub/Admitted.antt =====
-- From enrollment to the first session: handleEnroll and handleConn of internal/hub/control.go.
use light_pn.Prelude.{
  ℕ, ◌+◌, ◌*◌, String, ◌≡◌, ◌≢◌, refl, sym, ap, ◌∙◌, Bool, true, false, not, ◌||◌, List, [], ◌∷◌,
  ◌++◌, Option, none, some, Result, ok, err, arith, eqb_ℤ, ◌is◌, is_iff, is_refl, has, find_first,
  Bool-cases, Option-cases, inl, inr, if◌then◌else◌,
}
use Prim.Native.String.{◌++◌ as text_append}
use light_pn.Proto.{Envelope, EnrollData, EnrollAckData, new_envelope, version}
use light_pn.Proto.Kind
use light_pn.Proto.Code
use light_pn.Pki.{X509, SignError, sign_csr}
use light_pn.Store.{
  Node, TokenRow, Store, StoreError, not_found, token_expired, token_used, unique_violation,
  foreign_key_violation, self_link, bad_exit_node, bad_cidr, ipam_exhausted,
}
use light_pn.Store.Nodes.{is_node, create_node, get_node}
use light_pn.Store.Tokens.{consume_token}
use light_pn.Store.Tokens.Once.{matches, consume_token-row, consume_token-used}
use light_pn.Store.Tokens.Spent.{allocate_ip-tokens, create_node-tokens}
use light_pn.Store.Ipam.{allocate_ip}
use light_pn.Hub.State.{Hub, World}
use light_pn.Hub.Removal.{flag, is_revoked}
use light_pn.Hub.Enroll.{
  admits, handle_conn, known, Answer, error, replies, token_error, row_of, welcome, signed,
  allocated, burned, enroll_frame,
}

find-appended :
    (id : String) (ns : List Node) (n : Node)
    → has (is_node id) ns ≡ false
    → n.id ≡ id
    → find_first (is_node id) (ns ++ n ∷ []) ≡ some n
find-appended id [] n free e = ground (arith, is_iff n.id id, e)
find-appended id (m ∷ ns) n free e = ground (arith, find-appended id ns n, free, e)

-- what a successful insert leaves to be found
create_node-found :
    (n : Node) (st st' : Store) (u : Unit)
    → create_node n st ≡ (ok u, st')
    → find_first (is_node n.id) st'.nodes ≡ some (record n { revoked = false })
unfolding create_node
create_node-found n st st' u h =
    elim (Bool-cases
      (has (is_node n.id) st.nodes || has (λ m. m.overlay_ip is n.overlay_ip) st.nodes)) [
        | inl e ↦ cc (rw (e, create_node) at h)
        | inr e ↦
            let rows : st'.nodes ≡ st.nodes ++ record n { revoked = false } ∷ [] =
              cc (
                ap (λ (p : Result StoreError Unit × Store). p.1.nodes)
                  (rw (e, create_node) at h)) in
            rw rows
              (find-appended n.id st.nodes (record n { revoked = false }) (ground (arith, e)) refl)
      ]

token_error-fails : (e : StoreError) (env : Envelope) → token_error e ≢ replies env
token_error-fails not_found env k = cc k
token_error-fails token_expired env k = cc k
token_error-fails token_used env k = cc k
token_error-fails unique_violation env k = cc k
token_error-fails foreign_key_violation env k = cc k
token_error-fails self_link env k = cc k
token_error-fails bad_exit_node env k = cc k
token_error-fails bad_cidr env k = cc k
token_error-fails ipam_exhausted env k = cc k

module _ {F : Type 0} where
  conn-admits :
      (n : Node) (h : Hub F)
      → is_revoked n.cert_serial h ≡ false
      → n.revoked ≡ false
      → find_first (is_node n.id) h.store.nodes ≡ some n
      → handle_conn (some (record { common_name = n.id; serial = n.cert_serial })) h ≡ admits n
  unfolding handle_conn get_node
  conn-admits n h clear live found =
      rw (clear, handle_conn) (rw (found, known) (rw (live, is_refl n.cert_serial) refl))

module _ {F : Type 0} (w : World F) where
  -- the address that AllocateIP gives after the token was burned
  abbrev pub address : ℕ → Hub F → Store → Result StoreError String
  address now h st = (allocate_ip w.netip h.cfg.overlay_cidr h.cfg.ip_cooldown_s now st).0

module _ {F Csr : Type 0} (w : World F) (x : X509 Csr) where
  -- What an answered enrollment has done: the row of the new node and the address it was given, the
  -- certificate for its id and serial, the answer with that certificate, and the tokens and the
  -- revocation list as they were.
  record Joins (d : EnrollData) (id ip : String) (now serial : ℕ) (env : Envelope) (h : Hub F)
      (ts : List TokenRow) (h' : Hub F) : Type 0 where
    node : Node
    live : node.revoked ≡ false
    addressed : node.overlay_ip ≡ ip
    found : find_first (is_node node.id) h'.store.nodes ≡ some node
    same : h'.revoked ≡ h.revoked
    tokens : h'.store.tokens ≡ ts
    ack : EnrollAckData
    told : ack.node_id ≡ node.id
    certified :
        sign_csr x d.csr_pem node.id (h.cfg.cert_ttl_days * 86_400) now serial
        ≡ ok (ack.cert_pem, node.cert_serial)
    answered : new_envelope w.enroll_ack Kind.enroll_ack id ack ≡ some env

  welcome-kept :
      (d : EnrollData) (id local : String) (n : Node) (pem ca : String) (h : Hub F) (u : Unit)
      (st : Store)
      → ((welcome w x d id local n pem ca h (ok u, st)).1.store ≡ st)
        × ((welcome w x d id local n pem ca h (ok u, st)).1.revoked ≡ h.revoked)
  welcome-kept d id local n pem ca h u st = (ground arith, ground arith)

  replies-inj : (a b : Envelope) → replies a ≡ replies b → a ≡ b
  replies-inj a b e = cc e

  welcome-Joins :
      (d : EnrollData) (id local : String) (now serial : ℕ) (n : Node) (pem ca : String)
      (h h' : Hub F) (env : Envelope) (p : Result StoreError Unit × Store)
      → sign_csr x d.csr_pem n.id (h.cfg.cert_ttl_days * 86_400) now serial
        ≡ ok (pem, n.cert_serial)
      → create_node n h.store ≡ p
      → welcome w x d id local n pem ca h p ≡ (replies env, h')
      → Joins d id n.overlay_ip now serial env h h.store.tokens h'
  welcome-Joins d id local now serial n pem ca h h' env (err e, st) s c k = cc (ap (λ q. q.0) k)
  welcome-Joins d id local now serial n pem ca h h' env (ok u, st) s c k =
      let (stored, kept) = welcome-kept d id local n pem ca h u st in
      let store : h'.store ≡ st = ap (λ (q : Answer × Hub F). q.1.store) (sym k) ∙ stored in
      let ack : EnrollAckData = record {
        node_id = n.id;
        cert_pem = pem;
        ca_pem = ca;
        overlay_ip = text_append n.overlay_ip "/32";
        overlay_cidr = h.cfg.overlay_cidr;
        control_addr = if h.cfg.public_addr is "" then local else h.cfg.public_addr;
      } in
      record {
        node = record n { revoked = false };
        live = refl;
        addressed = refl;
        found = rw store (create_node-found n h.store st u c);
        same = ap (λ (q : Answer × Hub F). q.1.revoked) (sym k) ∙ kept;
        tokens =
            ap (λ (t : Store). t.tokens) store
            ∙ ap (λ (q : Result StoreError Unit × Store). q.1.tokens) (sym c)
            ∙ create_node-tokens n h.store;
        ack = ack;
        told = refl;
        certified = s;
        answered = elim (Option-cases (new_envelope w.enroll_ack Kind.enroll_ack id ack)) [
          | inl e ↦ cc (ap (λ q. q.0) (rw (e, welcome) at k))
          | inr (env', e) ↦
              e ∙ ap some (replies-inj env' env (ap (λ q. q.0) (rw (e, welcome) at k)))
        ];
      }

  signed-Joins :
      (d : EnrollData) (id local node ip ca : String) (now serial : ℕ) (h h' : Hub F)
      (env : Envelope) (r : Result SignError (String × String))
      → sign_csr x d.csr_pem node (h.cfg.cert_ttl_days * 86_400) now serial ≡ r
      → signed w x d id local node ip ca now h r ≡ (replies env, h')
      → Joins d id ip now serial env h h.store.tokens h'
  signed-Joins d id local node ip ca now serial h h' env (err e) c k = cc (ap (λ q. q.0) k)
  signed-Joins d id local node ip ca now serial h h' env (ok (pem, text)) c k =
      let n = row_of d node ip text now in
      welcome-Joins d id local now serial n pem ca h h' env (create_node n h.store) c refl k

  allocated-Joins :
      (d : EnrollData) (id local ca : String) (now serial : ℕ) (h h' : Hub F) (env : Envelope)
      (p : Result StoreError String × Store)
      → allocated w x d id local ca now serial h p ≡ (replies env, h')
      → (ip : String) × (p.0 ≡ ok ip) × Joins d id ip now serial env h p.1.tokens h'
  allocated-Joins d id local ca now serial h h' env (err e, st) k = cc (ap (λ q. q.0) k)
  allocated-Joins d id local ca now serial h h' env (ok ip, st) k =
      let node = w.ulid h.next_id in
      let j =
        signed-Joins d id local node ip ca now serial
          (record h { store = st; next_id = h.next_id + 1 }) h' env
          (sign_csr x d.csr_pem node (h.cfg.cert_ttl_days * 86_400) now serial) refl k in
      (
        ip,
        refl,
        record {
          node = j.node;
          live = j.live;
          addressed = j.addressed;
          found = j.found;
          same = j.same;
          tokens = j.tokens;
          ack = j.ack;
          told = j.told;
          certified = j.certified;
          answered = j.answered;
        },
      )

  burned-Joins :
      (d : EnrollData) (id local ca : String) (now serial : ℕ) (h h' : Hub F) (env : Envelope)
      (p : Result StoreError Unit × Store)
      → burned w x d id local ca now serial h p ≡ (replies env, h')
      → (ip : String) × (p.0 ≡ ok tt)
        × (address w now h p.1 ≡ ok ip)
        × Joins d id ip now serial env h p.1.tokens h'
  burned-Joins d id local ca now serial h h' env (err e, st) k =
      absurd (token_error-fails e env (ap (λ q. q.0) k))
  burned-Joins d id local ca now serial h h' env (ok u, st) k =
      let (ip, got, j) =
        allocated-Joins d id local ca now serial (record h { store = st }) h' env
          (allocate_ip w.netip h.cfg.overlay_cidr h.cfg.ip_cooldown_s now st) k in
      (
        ip,
        refl,
        got,
        record {
          node = j.node;
          live = j.live;
          addressed = j.addressed;
          found = j.found;
          same = j.same;
          tokens =
              j.tokens ∙ allocate_ip-tokens w.netip h.cfg.overlay_cidr h.cfg.ip_cooldown_s now st;
          ack = j.ack;
          told = j.told;
          certified = j.certified;
          answered = j.answered;
        },
      )

  unrefused :
      (b : Bool) (code msg : String) (h h' : Hub F) (env : Envelope) (y : Answer × Hub F)
      → (if b then (error code msg, h) else y) ≡ (replies env, h')
      → y ≡ (replies env, h')
  unrefused true code msg h h' env y k = cc (ap (λ q. q.0) k)
  unrefused false code msg h h' env y k = k

  payload-burned :
      (id local ca : String) (now serial : ℕ) (h h' : Hub F) (env : Envelope)
      (o : Option EnrollData)
      → ◌≡◌ {A = Answer × Hub F}
          (elim o [
            | none ↦ (error Code.internal "bad enroll payload", h)
            | some d ↦
                burned w x d id local ca now serial h (consume_token w.sha256 d.token now h.store)
          ])
          (replies env, h')
      → (d : EnrollData) × (o ≡ some d)
        × (burned w x d id local ca now serial h (consume_token w.sha256 d.token now h.store)
            ≡ (replies env, h'))
  payload-burned id local ca now serial h h' env none k = cc (ap (λ q. q.0) k)
  payload-burned id local ca now serial h h' env (some d) k = (d, refl, k)

  -- the frame of an answered enrollment carries a payload, whose token is consumed
  frame-burned :
      (frame : Option Envelope) (local ca : String) (now serial : ℕ) (h h' : Hub F) (env : Envelope)
      → enroll_frame w x frame local ca now serial h ≡ (replies env, h')
      → (e : Envelope) × (frame ≡ some e)
        × (d : EnrollData) × (w.enroll.unmarshal e.payload ≡ some d)
        × (burned w x d e.id local ca now serial h (consume_token w.sha256 d.token now h.store)
            ≡ (replies env, h'))
  unfolding enroll_frame
  frame-burned none local ca now serial h h' env k = cc (ap (λ q. q.0) k)
  frame-burned (some e) local ca now serial h h' env k =
      let (d, parsed, burns) =
        payload-burned e.id local ca now serial h h' env (w.enroll.unmarshal e.payload) (
          unrefused (not (e.kind is Kind.enroll)) _ _ h h' env _
            (unrefused (not (eqb_ℤ e.v version)) _ _ h h' env _ k)) in
      (e, refl, d, parsed, burns)

-- A token is refused as used on every store with the tokens that its consumption left.
spent :
    (sha256 : String → String) (plain : String) (now later : ℕ) (st st' : Store)
    → (consume_token sha256 plain now st).0 ≡ ok tt
    → st'.tokens ≡ (consume_token sha256 plain now st).1.tokens
    → consume_token sha256 plain later st' ≡ (err token_used, st')
spent sha256 plain now later st st' h same =
    let (t, _, used) =
      consume_token-row sha256 plain now st (consume_token sha256 plain now st).1
        (ap (λ r. (r, (consume_token sha256 plain now st).1)) h) in
    consume_token-used sha256 plain later st' (record t { used_at = some now })
      (ap (find_first (matches sha256 plain)) same ∙ used) refl

-- If an enrollment is answered with a certificate, then the token in the frame was good, and after it
-- is refused as used; the node was given its address by AllocateIP; and the answer carries the id of
-- the node and the certificate that SignCSR made for this id, of the serial in the node's row. A
-- connection with this id and serial is then admitted as this node, unless the serial is on the
-- revocation list.
pub enroll_frame-admits :
    {F Csr : Type 0} (w : World F) (x : X509 Csr) (frame : Option Envelope) (local ca : String)
    (now serial : ℕ) (h h' : Hub F) (env : Envelope)
    → enroll_frame w x frame local ca now serial h ≡ (replies env, h')
    → (e : Envelope) × (d : EnrollData) × (n : Node) × (ack : EnrollAckData) × (frame ≡ some e)
      × (w.enroll.unmarshal e.payload ≡ some d)
      × ((consume_token w.sha256 d.token now h.store).0 ≡ ok tt)
      × ((later : ℕ) → consume_token w.sha256 d.token later h'.store ≡ (err token_used, h'.store))
      × (address w now h (consume_token w.sha256 d.token now h.store).1 ≡ ok n.overlay_ip)
      × (new_envelope w.enroll_ack Kind.enroll_ack e.id ack ≡ some env)
      × (ack.node_id ≡ n.id)
      × (sign_csr x d.csr_pem n.id (h.cfg.cert_ttl_days * 86_400) now serial
          ≡ ok (ack.cert_pem, n.cert_serial))
      × (is_revoked n.cert_serial h ≡ false
          → handle_conn (some (record { common_name = n.id; serial = n.cert_serial })) h'
            ≡ admits n)
unfolding is_revoked
enroll_frame-admits w x frame local ca now serial h h' env k =
    let (e, sent, d, parsed, burns) = frame-burned w x frame local ca now serial h h' env k in
    let (ip, good, given, j) =
      burned-Joins w x d e.id local ca now serial h h' env
        (consume_token w.sha256 d.token now h.store) burns in
    (
      e,
      d,
      j.node,
      j.ack,
      sent,
      parsed,
      good,
      λ later. spent w.sha256 d.token now later h.store h'.store good j.tokens,
      given ∙ ap ok (sym j.addressed),
      j.answered,
      j.told,
      j.certified,
      λ clear. conn-admits j.node h' (ap (flag j.node.cert_serial) j.same ∙ clear) j.live j.found,
    )
