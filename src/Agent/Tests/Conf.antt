-- ===== src/Agent/Tests/Conf.antt =====
-- Concrete runs of the configuration view and of a service command: internal/agent/toolconf.go,
-- viewkey.go and svccmd.go.
use light_pn.Prelude.{
  ◌≤◌, String, ◌≡◌, refl, true, false, List, [], ◌∷◌, map, none, some, Result, ok, pos, length, has,
  All, replicate,
}
use light_pn.Prelude.Letters.{encode, decode_from, decode-encode}
use light_pn.Proto.{ConfEnc, ConfResultData}
use light_pn.Store.Valid.{Distinct}
use light_pn.Agent.SvcCmd.{content, Crypto, key_of, open_svc_cmd}
use light_pn.Agent.Registry.{SvcEntry, RegError}
use light_pn.Agent.ToolConf.{
  FileSystem, conf_file_cap, conf_total_cap, candidates, collect_tool_conf,
}
use light_pn.Agent.ToolConf.Caps.{IsPart, total_size}
use light_pn.Agent.ToolConf.Bounded.{same_path, path_of, collect_tool_conf-bounded}
use light_pn.Agent.Sealed.{Sealing, stripped, with_services, seal_tool_conf}
use light_pn.Agent.Sealed.Closed.{Reading, Inverts, opened, seal_tool_conf-opened}
use light_pn.Agent.SvcAction.{SvcManager, handle_svc_action}
use light_pn.Agent.SvcAction.Carried.{Outcome, handle_svc_action-Outcome}
use light_pn.Agent.Tests.{crypto, command, lib}

-- every path is a file of two bytes
abbrev pub files : FileSystem
files = record {
  stat = λ p. ok (record { is_dir = false; mod_time = pos 1; size = pos 2 });
  read_file = λ p. ok (7 ∷ 8 ∷ []);
}

abbrev registry : Result RegError (List SvcEntry)
registry =
    ok (record { alias = "proxy"; unit = "xray.service"; conf = "/etc/xray/config.json" } ∷ [])

collect_tool_conf-bounded_example :
    All
      (λ f.
        (length f.content ≤ conf_file_cap)
        × IsPart files f
        × (has (same_path f.path) (candidates registry) ≡ true))
      (collect_tool_conf files "lightpn0" "key" (pos 51820) none registry).files
    × Distinct path_of (collect_tool_conf files "lightpn0" "key" (pos 51820) none registry).files
    × (total_size (collect_tool_conf files "lightpn0" "key" (pos 51820) none registry).files
        ≤ conf_total_cap)
collect_tool_conf-bounded_example =
    collect_tool_conf-bounded files "lightpn0" "key" (pos 51820) none registry

unfoldable pub base64 : Crypto
unfolding decode_from
base64 = record {
  decode = decode_from 0;
  nonce_size = 1;
  unsealed = λ key nonce ct. some ct;
  unmarshal_key = λ b. some (record {
    kdf = "argon2id";
    mem_kib = 65_536;
    time = 3;
    par = 1;
    salt = "s";
    key = "bbbbbbbbbbbbbbbbbbbbbbbbbbbbbbbb";
  });
  unmarshal_cmd = λ b. none;
}

unfoldable pub sealing : Sealing
unfolding encode
sealing = record {
  encode = encode;
  gzip = λ b. some b;
  sealed = λ key nonce b. b;
  marshal = λ r. some (1 ∷ []);
}

abbrev result : ConfResultData
result = record {
  wg = record { iface = "lightpn0"; pubkey = "key"; listen_port = pos 51820; peers = none };
  files =
      record {
        tool = "xray";
        path = "/etc/xray/config.json";
        mod_time = pos 1;
        size = pos 2;
        content = 7 ∷ 8 ∷ [];
        truncated = false;
        error = "";
        registered = false;
      }
      ∷ [];
  services = [];
  enc = none;
  no_key = false;
}

abbrev reading : Reading
reading = record { gunzip = λ b. some b; unmarshal = λ b. some result }

inverts : Inverts base64 sealing reading
unfolding base64 sealing
inverts = record {
  decode-encode = decode-encode;
  unsealed-sealed = λ key nonce b. refl;
  gunzip-gzip = λ b z h. cc h;
}

has_key : key_of base64 (content []) ≡ ok (replicate 32 0)
unfolding key_of base64
has_key = refl

marshals : sealing.marshal (with_services result []) ≡ some (1 ∷ [])
unfolding sealing
marshals = refl

zips : sealing.gzip (1 ∷ []) ≡ some (1 ∷ [])
unfolding sealing
zips = refl

seal_tool_conf-opened_example :
    (e : ConfEnc) × (seal_tool_conf base64 sealing "view.key"
        (λ f. "failed")
        (content [])
        result
        []
        (some (9 ∷ []))
      ≡ record {
        wg = result.wg;
        files = map stripped result.files;
        services = [];
        enc = some e;
        no_key = false;
      })
    × (opened base64 reading (replicate 32 0) e ≡ some (with_services result []))
seal_tool_conf-opened_example =
    seal_tool_conf-opened base64 sealing reading "view.key" (λ f. "failed") (content []) result []
      (replicate 32 0) (9 ∷ []) (1 ∷ []) (1 ∷ []) inverts has_key marshals refl zips

-- systemd as the list of what it was told
abbrev pub systemd : SvcManager (List (String × String))
systemd = record {
  status = λ unit s. ("active", "enabled");
  act = λ action unit s. (none, (action, unit) ∷ s);
}

handle_svc_action-Outcome_example :
    Outcome
      (λ r. "refused")
      lib
      (some (1 ∷ []))
      (some systemd)
      (open_svc_cmd crypto (content []) command 1100 []).0
      []
      (handle_svc_action
        (λ r. "refused")
        crypto
        lib
        (content [])
        (some (1 ∷ []))
        (some systemd)
        command
        1100
        []
        []).0
handle_svc_action-Outcome_example =
    handle_svc_action-Outcome (λ r. "refused") crypto lib (content []) (some (1 ∷ []))
      (some systemd) command 1100 [] []
