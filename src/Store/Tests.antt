-- ===== src/Store/Tests.antt =====
-- Concrete runs of the store of internal/hub/store.go.
use Prim.Native.String.{◌++◌ as text_append}
use light_pn.Prelude.{
  ℕ, zero, suc, ◌+◌, ◌<◌, ◌≡◌, ◌≢◌, ◌↔◌, ◌⊎◌, refl, false, [], ◌∷◌, none, some, ok, err, arith,
  String, keep_if, true, not, List,
}
use light_pn.Store.{Node, Link, TokenRow, Store, token_used, ipam_exhausted, empty_store}
use light_pn.Store.Nodes.{delete_node, touches, get_node, links_of_node}
use light_pn.Store.Tokens.{consume_token}
use light_pn.Store.Tokens.Once.{consume_token_iff, IsGood}
use light_pn.Store.Tokens.Spent.{consume_token-spent}
use light_pn.Prelude.Map.{lookup}
use light_pn.Store.Names.{svc_names}
use light_pn.Store.Nodes.Removed.{delete_node-removes}
use light_pn.Store.Nodes.Delete.{freed_ip_rests, without}
use light_pn.Store.Ipam.{
  Netip, Prefix, network, last_addr, allocate_ip, mem_text, used_ips, expire_cooldowns,
}
use light_pn.Store.Ipam.Range.{last_addr-network}
use light_pn.Store.Ipam.Lowest.{allocate_ip-lowest, AllUsed}
use light_pn.Store.Valid.{IsValid}
use light_pn.Store.Valid.Calls.{run, creates_node, deletes_node, consumes_token, run-IsValid}

-- 10.0.0.0/30, whose addresses print as letters
abbrev small : Prefix
small = record { addr = 40; bits = 30 }

abbrev letters : ℕ → String
letters n = elim n [ zero ↦ "a" | suc m ↦ "b" ]

abbrev net : Netip
net = record { parse_prefix = λ _. some small; to_string = letters }

abbrev node : Node
node = record {
  id = "n";
  name = "name";
  overlay_ip = "b";
  cert_serial = "s";
  created_at = 1;
  last_seen = 0;
  revoked = false;
}

abbrev one_node : Store
one_node = record empty_store { nodes = node ∷ [] }

abbrev token : TokenRow
token = record { id = "t"; hash = "lp_x"; note = ""; expires_at = 100; used_at = none }

abbrev one_token : Store
one_token = record empty_store { tokens = token ∷ [] }

abbrev used_token : Store
used_token = record empty_store { tokens = record token { used_at = some 50 } ∷ [] }

run-IsValid_example :
    IsValid (run (λ s. s) net empty_store (creates_node node ∷ deletes_node "n" 5 ∷ []))
run-IsValid_example = run-IsValid (λ s. s) net (creates_node node ∷ deletes_node "n" 5 ∷ [])

consume_token_iff_example :
    ((consume_token (λ s. s) "lp_x" 50 one_token).0 ≡ ok tt)
    ↔ ((t : TokenRow) × IsGood (λ s. s) "lp_x" 50 one_token t)
consume_token_iff_example = consume_token_iff (λ s. s) "lp_x" 50 one_token

consumed : consume_token (λ s. s) "lp_x" 50 one_token ≡ (ok tt, used_token)
unfolding consume_token
consumed = refl

consume_token-spent_example :
    let st = run (λ s. s) net used_token (consumes_token "lp_x" 55 ∷ creates_node node ∷ []) in
    consume_token (λ s. s) "lp_x" 60 st ≡ (err token_used, st)
consume_token-spent_example =
    consume_token-spent (λ s. s) net "lp_x" 50 60 one_token used_token token
      (consumes_token "lp_x" 55 ∷ creates_node node ∷ []) refl consumed (λ h. cc h, (λ h. cc h, tt))

last_addr-network_example : last_addr small + 1 ≡ network small + 4
last_addr-network_example = last_addr-network small

deleted : delete_node "n" 7 one_node ≡ (ok (node, []), without node 7 one_node)
unfolding delete_node
deleted = refl

freed_ip_rests_example : (allocate_ip net "c" 10 12 (without node 7 one_node)).0 ≢ ok "b"
freed_ip_rests_example =
    freed_ip_rests net "c" "n" 10 7 12 one_node (without node 7 one_node) node [] deleted
      (omega arith)

delete_node-removes_example :
    let st' = without node 7 one_node in
    ((get_node "n" one_node).0 ≡ ok node)
    × ((links_of_node "n" one_node).0 ≡ ok [])
    × ((m : Node) × ((get_node "n" st').0 ≡ ok m)
        × (m.revoked ≡ true)
        × (m.cert_serial ≡ node.cert_serial)
        × (m.overlay_ip ≡ text_append "freed:" "n"))
    × ((j : String) → j ≢ "n" → (get_node j st').0 ≡ (get_node j one_node).0)
    × ((links_of_node "n" st').0 ≡ ok [])
    × ((j : String) (ks : List Link)
        → (links_of_node j one_node).0 ≡ ok ks
        → (links_of_node j st').0 ≡ ok (keep_if (λ l. not (touches "n" l)) ks))
    × ((svc_names "n" st').0 ≡ ok [])
    × (lookup node.overlay_ip st'.ip_cooldown ≡ some 7)
delete_node-removes_example =
    delete_node-removes "n" 7 one_node (without node 7 one_node) node [] deleted

allocate_ip-lowest_example :
    ((ip : ℕ) × (allocate_ip net "c" 10 12 one_node ≡ (ok (letters ip), one_node))
      × (41 < ip)
      × (ip < last_addr small)
      × (mem_text (used_ips one_node) (letters ip) ≡ false)
      × AllUsed net small (mem_text (used_ips one_node)) 41 ip)
    ⊎ ((allocate_ip net "c" 10 12 one_node ≡ (err ipam_exhausted, one_node))
        × AllUsed net small (mem_text (used_ips one_node)) 41 (last_addr small))
unfolding expire_cooldowns network
allocate_ip-lowest_example = allocate_ip-lowest net "c" 10 12 one_node small refl
