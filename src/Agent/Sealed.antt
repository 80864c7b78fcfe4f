-- ===== src/Agent/Sealed.antt =====
-- The sealed form of the collected configuration: seal and sealToolConf of internal/agent/viewkey.go.
-- base64, gzip, AES-GCM and encoding/json are parameters.
pub mod Closed
use light_pn.Prelude.{
  ℕ, String, Bool, true, false, List, [], ◌∷◌, map, Option, none, some, Result, ok, err, ℤ, pos,
}
use light_pn.Proto.{Bytes, SvcStatus, ConfFile, ConfWg, ConfEnc, ConfResultData}
use light_pn.Agent.SvcCmd.{
  view_key_len, ViewKey, KeyFile, SvcError, malformed_key, Crypto, load_view_key, right_length,
}

-- Beside the calls of `Crypto`: base64's encoder, gzip, AES-GCM's Seal and json.Marshal.
pub record Sealing : Type 0 where
  pub encode : Bytes → String
  pub gzip : Bytes → Option Bytes
  pub sealed : Bytes → Bytes → Bytes → Bytes
  pub marshal : ConfResultData → Option Bytes

pub data SealError : Type 0 where
  bad_key : SvcError → SealError
  gzip_failed no_random marshal_failed : SealError

-- what the error entry says
pub data Failure : Type 0 where
  key_failure : SvcError → Failure
  seal_failure : SealError → Failure

module _ (c : Crypto) (x : Sealing) where
  abbrev enveloped : ViewKey → Bytes → Bytes → Option Bytes → Result SealError ConfEnc
  enveloped vk key zipped none = err no_random
  enveloped vk key zipped (some nonce) = ok (record {
    kdf = vk.kdf;
    mem_kib = vk.mem_kib;
    time = vk.time;
    par = vk.par;
    salt = vk.salt;
    nonce = x.encode nonce;
    ct = x.encode (x.sealed key nonce zipped);
  })

  abbrev zipped_under :
      ViewKey → Option Bytes → Option Bytes → Result SvcError Bytes → Result SealError ConfEnc
  zipped_under vk zipped random (err e) = err (bad_key e)
  zipped_under vk none random (ok key) = err gzip_failed
  zipped_under vk (some zipped) random (ok key) = enveloped vk key zipped random

  -- seal, with the random nonce (`none` if the source failed)
  unfoldable pub seal : ViewKey → Bytes → Option Bytes → Result SealError ConfEnc
  seal vk plain random =
      zipped_under vk (x.gzip plain) random
        (right_length malformed_key view_key_len (c.decode vk.key))

-- an entry without what it must not carry outside
abbrev pub stripped : ConfFile → ConfFile
stripped f = record f { content = []; truncated = false }

-- ConfWG{}
abbrev no_wg : ConfWg
no_wg = record { iface = ""; pubkey = ""; listen_port = pos 0; peers = none }

-- the answer that reports an error
abbrev pub failed : String → String → ConfResultData
failed path msg = record {
  wg = no_wg;
  files =
      record {
        tool = "lightpn";
        path = path;
        mod_time = pos 0;
        size = pos 0;
        content = [];
        truncated = false;
        error = msg;
        registered = false;
      }
      ∷ [];
  services = [];
  enc = none;
  no_key = false;
}

abbrev pub with_services : ConfResultData → List SvcStatus → ConfResultData
with_services res services = record res { services = services }

module _ (c : Crypto) (x : Sealing) (path : String) (show : Failure → String) where
  abbrev pub with_enc : ConfResultData → Result SealError ConfEnc → ConfResultData
  with_enc res (err e) = failed path (show (seal_failure e))
  with_enc res (ok enc) = record {
    wg = res.wg;
    files = map stripped res.files;
    services = res.services;
    enc = some enc;
    no_key = false;
  }

  abbrev pub sealed_plain : ConfResultData → ViewKey → Option Bytes → Option Bytes → ConfResultData
  sealed_plain res vk random none = failed path (show (seal_failure marshal_failed))
  sealed_plain res vk random (some plain) = with_enc res (seal c x vk plain random)

  abbrev pub seal_under :
      ConfResultData
      → List SvcStatus
      → Option Bytes
      → Result SvcError (Option ViewKey)
      → ConfResultData
  seal_under res services random (err e) = failed path (show (key_failure e))
  seal_under res services random (ok none) = record {
    wg = res.wg;
    files = [];
    services = [];
    enc = none;
    no_key = true;
  }
  seal_under res services random (ok (some vk)) =
      sealed_plain (with_services res services) vk random (x.marshal (with_services res services))

  -- sealToolConf: `file` is view.key, at `path`, and `services` the answer of collectSvcStatus
  unfoldable pub seal_tool_conf :
      KeyFile → ConfResultData → List SvcStatus → Option Bytes → ConfResultData
  unfolding load_view_key seal
  seal_tool_conf file res services random = seal_under res services random (load_view_key c file)
