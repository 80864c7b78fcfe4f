-- ===== src/Agent/ToolConf.antt =====
-- The configuration files of network tools, internal/agent/toolconf.go: collectToolConf. The file
-- system, the WireGuard status and the registry are read through parameters.
pub mod Caps
pub mod Bounded
use light_pn.Prelude.{
  ℕ, ◌+◌, ◌-◌, ◌*◌, String, Bool, true, false, not, ◌&&◌, ◌||◌, List, [], ◌∷◌, ◌++◌, map, Option,
  none, some, Result, ok, err, ℤ, pos, ltb, leb, if◌then◌else◌, ◌is◌, has, keep_if, length, take,
}
use light_pn.Proto.{Bytes, WgPeerStatus, ConfFile, ConfWg, ConfResultData}
use light_pn.Agent.Registry.{SvcEntry, RegError}

-- const confFileCap and confTotalCap
abbrev pub conf_file_cap : ℕ
conf_file_cap = 256 * 1_024

abbrev pub conf_total_cap : ℕ
conf_total_cap = 768 * 1_024

pub record Candidate : Type 0 where
  pub tool : String
  pub path : String
  pub registered : Bool

abbrev builtin : String → String → Candidate
builtin tool path = record { tool = tool; path = path; registered = false }

-- toolConfCandidates
abbrev pub tool_conf_candidates : List Candidate
tool_conf_candidates =
    builtin "xray" "/usr/local/etc/xray/config.json"
    ∷ builtin "xray" "/etc/xray/config.json"
    ∷ builtin "sing-box" "/etc/sing-box/config.json"
    ∷ builtin "sing-box" "/usr/local/etc/sing-box/config.json"
    ∷ builtin "v2ray" "/usr/local/etc/v2ray/config.json"
    ∷ builtin "v2ray" "/etc/v2ray/config.json"
    ∷ builtin "hysteria" "/etc/hysteria/config.yaml"
    ∷ builtin "hysteria" "/etc/hysteria/config.json"
    ∷ builtin "trojan-go" "/etc/trojan-go/config.json"
    ∷ builtin "shadowsocks-rust" "/etc/shadowsocks-rust/config.json"
    ∷ builtin "shadowsocks-rust" "/usr/local/etc/shadowsocks-rust/config.json"
    ∷ builtin "shadowsocks" "/etc/shadowsocks/config.json"
    ∷ builtin "mihomo" "/etc/mihomo/config.yaml"
    ∷ builtin "clash" "/etc/clash/config.yaml"
    ∷ builtin "caddy" "/etc/caddy/Caddyfile"
    ∷ builtin "naiveproxy" "/etc/naiveproxy/config.json"
    ∷ []

-- what os.Stat tells of a path
pub record FileInfo : Type 0 where
  pub is_dir : Bool
  pub mod_time : ℤ
  pub size : ℤ

-- os.Stat and os.ReadFile, with the texts of their errors
pub record FileSystem : Type 0 where
  pub stat : String → Result String FileInfo
  pub read_file : String → Result String Bytes

-- the registered paths, before the builtin ones
unfoldable pub candidates : Result RegError (List SvcEntry) → List Candidate
candidates (err _) = tool_conf_candidates
candidates (ok reg) = map entry (keep_if (λ e. not (e.conf is "")) reg) ++ tool_conf_candidates
  where
    entry : SvcEntry → Candidate
    entry e = record { tool = e.alias; path = e.conf; registered = true }

-- the two cuts of the bytes that were read, after `total` bytes of earlier files
unfoldable pub cut_to : ℕ → ℕ → ℕ → Bytes → Bytes × Bool
cut_to file_cap total_cap total bytes =
    let one = take file_cap bytes in
    if ltb total_cap (total + length one)
    then (take (total_cap - total) one, true)
    else (one, ltb file_cap (length bytes))

unfoldable pub cut_data : ℕ → Bytes → Bytes × Bool
unfolding cut_to
cut_data = cut_to conf_file_cap conf_total_cap

-- what one candidate adds: nothing, an entry without a read, or an entry of a file
pub data Visit : Type 0 where
  skips : Visit
  reports reads : ConfFile → Visit

abbrev pub entry_of : Candidate → ℤ → ℤ → Bytes × Bool → String → ConfFile
entry_of c mod_time size (content, truncated) error = record {
  tool = c.tool;
  path = c.path;
  mod_time = mod_time;
  size = size;
  content = content;
  truncated = truncated;
  error = error;
  registered = c.registered;
}

abbrev pub unread : Candidate → String → Visit
unread c msg = if c.registered then reports (entry_of c (pos 0) (pos 0) ([], false) msg) else skips

abbrev pub read_entry : Candidate → ℕ → FileInfo → Result String Bytes → ConfFile
read_entry c total fi (err msg) = entry_of c fi.mod_time fi.size ([], false) msg
read_entry c total fi (ok bytes) = entry_of c fi.mod_time fi.size (cut_data total bytes) ""

abbrev pub visit_stat : FileSystem → Candidate → ℕ → Result String FileInfo → Visit
visit_stat fs c total (err msg) = unread c msg
visit_stat fs c total (ok fi) =
    if fi.is_dir
    then unread c "登记的是目录,目前只支持单个文件"
    else reads (read_entry c total fi (fs.read_file c.path))

-- the body of the loop
unfoldable pub visit : FileSystem → Candidate → ℕ → List String → Visit
unfolding cut_data
visit fs c total seen =
    if has (λ p. p is c.path) seen then skips else visit_stat fs c total (fs.stat c.path)

-- the loop over the candidates, which ends when the total cap is reached
unfoldable pub scan_files : FileSystem → List Candidate → ℕ → List String → List ConfFile
unfolding visit
scan_files fs [] total seen = []
scan_files fs (c ∷ cs) total seen = elim (visit fs c total seen) [
  | skips ↦ scan_files fs cs total seen
  | reports f ↦ f ∷ scan_files fs cs total (c.path ∷ seen)
  | reads f ↦ f ∷ elim (leb conf_total_cap (total + length f.content)) [
    | true ↦ []
    | false ↦ scan_files fs cs (total + length f.content) (c.path ∷ seen)
  ]
]

-- collectToolConf: the interface, the key and port of the agent, the WireGuard status (`none` if it
-- failed) and the registry that was loaded (an empty one if the agent has no identity)
unfoldable pub collect_tool_conf :
    FileSystem
    → String
    → String
    → ℤ
    → Option (List WgPeerStatus)
    → Result RegError (List SvcEntry)
    → ConfResultData
unfolding candidates scan_files
collect_tool_conf fs iface pubkey port peers reg = record {
  wg = record { iface = iface; pubkey = pubkey; listen_port = port; peers = peers };
  files = scan_files fs (candidates reg) 0 [];
  services = [];
  enc = none;
  no_key = false;
}
