-- ===== src/Agent/Sealed/Closed.antt =====
-- Contents travel only inside the sealed part, and that opens: sealToolConf of
-- internal/agent/viewkey.go.
use light_pn.Prelude.{
  String, ◌≡◌, ◌≢◌, ◌⊎◌, refl, true, false, List, [], ◌∷◌, map, Option, none, some, Result, ok, err,
  All, inl, inr,
}
use light_pn.Proto.{Bytes, SvcStatus, ConfFile, ConfEnc, ConfResultData}
use light_pn.Agent.SvcCmd.{
  view_key_len, ViewKey, KeyFile, SvcError, malformed_key, Crypto, load_view_key, right_length,
  key_of,
}
use light_pn.Agent.Sealed.{
  Sealing, SealError, Failure, seal, stripped, with_enc, sealed_plain, with_services, seal_under,
  seal_tool_conf,
}

abbrev HidesFiles : List ConfFile → Type 0
HidesFiles = All (λ f. (f.content ≡ []) × (f.truncated ≡ false))

-- no content outside the sealed part
abbrev pub Hides : ConfResultData → Type 0
Hides r = HidesFiles r.files

stripped-HidesFiles : (fs : List ConfFile) → HidesFiles (map stripped fs)
stripped-HidesFiles [] = tt
stripped-HidesFiles (f ∷ fs) = ((refl, refl), stripped-HidesFiles fs)

module _ (c : Crypto) (x : Sealing) (path : String) (show : Failure → String) where
  with_enc-Hides :
      (res : ConfResultData) (r : Result SealError ConfEnc) → Hides (with_enc c x path show res r)
  with_enc-Hides res (err e) = ((refl, refl), tt)
  with_enc-Hides res (ok enc) = stripped-HidesFiles res.files

  sealed_plain-Hides :
      (res : ConfResultData) (vk : ViewKey) (random plain : Option Bytes)
      → Hides (sealed_plain c x path show res vk random plain)
  sealed_plain-Hides res vk random none = ((refl, refl), tt)
  sealed_plain-Hides res vk random (some plain) = with_enc-Hides res (seal c x vk plain random)

  seal_under-Hides :
      (res : ConfResultData) (services : List SvcStatus) (random : Option Bytes)
      (r : Result SvcError (Option ViewKey))
      → Hides (seal_under c x path show res services random r)
  seal_under-Hides res services random (err e) = ((refl, refl), tt)
  seal_under-Hides res services random (ok none) = tt
  seal_under-Hides res services random (ok (some vk)) =
      sealed_plain-Hides (with_services res services) vk random _

-- Whatever view.key, the libraries and the collected result are: the answer of sealToolConf has no
-- content and no truncation flag in its files; and if no view password is set, it has no files, no
-- services and no sealed part at all, and says so.
pub seal_tool_conf-Hides :
    (c : Crypto) (x : Sealing) (path : String) (show : Failure → String) (file : KeyFile)
    (res : ConfResultData) (services : List SvcStatus) (random : Option Bytes)
    → Hides (seal_tool_conf c x path show file res services random)
      × ((load_view_key c file ≢ ok none)
          ⊎ (seal_tool_conf c x path show file res services random
              ≡ record { wg = res.wg; files = []; services = []; enc = none; no_key = true }))
unfolding seal_tool_conf
seal_tool_conf-Hides c x path show file res services random = (
  seal_under-Hides c x path show res services random (load_view_key c file),
  no_password (load_view_key c file),
)
  where
    no_password :
        (r : Result SvcError (Option ViewKey))
        → (r ≢ ok none)
          ⊎ (seal_under c x path show res services random r
              ≡ record { wg = res.wg; files = []; services = []; enc = none; no_key = true })
    no_password (err e) = inl (λ h. cc h)
    no_password (ok none) = inr refl
    no_password (ok (some vk)) = inl (λ h. cc h)

-- gunzip and json.Unmarshal, on the side of the operator
pub record Reading : Type 0 where
  pub gunzip : Bytes → Option Bytes
  pub unmarshal : Bytes → Option ConfResultData

abbrev chain : {A B : Type 0} → Option A → (A → Option B) → Option B
chain none f = none
chain (some a) f = f a

-- what the holder of the key reads from the sealed part
unfoldable pub opened : Crypto → Reading → Bytes → ConfEnc → Option ConfResultData
opened c y key e = chain (c.decode e.nonce) (λ nonce.
    chain (c.decode e.ct) (λ ct. chain (chain (c.unsealed key nonce ct) y.gunzip) y.unmarshal))

-- base64, AES-GCM under the same key and gzip are undone by their inverses
pub record Inverts (c : Crypto) (x : Sealing) (y : Reading) : Type 0 where
  pub decode-encode : (b : Bytes) → c.decode (x.encode b) ≡ some b
  pub unsealed-sealed : (key nonce b : Bytes) → c.unsealed key nonce (x.sealed key nonce b) ≡ some b
  pub gunzip-gzip : (b z : Bytes) → x.gzip b ≡ some z → y.gunzip z ≡ some b

key_of-ok :
    (c : Crypto) (file : KeyFile) (key : Bytes)
    → key_of c file ≡ ok key
    → (vk : ViewKey) × (load_view_key c file ≡ ok (some vk))
      × (right_length malformed_key view_key_len (c.decode vk.key) ≡ ok key)
unfolding key_of
key_of-ok c file key h = go (load_view_key c file) refl
  where
    go :
        (r : Result SvcError (Option ViewKey))
        → load_view_key c file ≡ r
        → (vk : ViewKey) × (load_view_key c file ≡ ok (some vk))
          × (right_length malformed_key view_key_len (c.decode vk.key) ≡ ok key)
    go (err e) k = cc (rw (k, key_of) at h)
    go (ok none) k = cc (rw (k, key_of) at h)
    go (ok (some vk)) k = (vk, k, rw (k, key_of) at h)

-- If view.key holds a key and nothing fails, the sealed part of the answer opens under that key to the
-- whole collected result with the services, and beside it travel only the WireGuard summary, the
-- services and the files without contents; if each decoder undoes its encoder.
pub seal_tool_conf-opened :
    (c : Crypto) (x : Sealing) (y : Reading) (path : String) (show : Failure → String)
    (file : KeyFile) (res : ConfResultData) (services : List SvcStatus)
    (key nonce plain zipped : Bytes)
    → Inverts c x y
    → key_of c file ≡ ok key
    → x.marshal (with_services res services) ≡ some plain
    → y.unmarshal plain ≡ some (with_services res services)
    → x.gzip plain ≡ some zipped
    → (e : ConfEnc) × (seal_tool_conf c x path show file res services (some nonce) ≡ record {
      wg = res.wg;
      files = map stripped res.files;
      services = services;
      enc = some e;
      no_key = false;
    })
      × (opened c y key e ≡ some (with_services res services))
unfolding seal_tool_conf seal opened
seal_tool_conf-opened c x y path show file res services key nonce plain zipped inv k m reads z =
    let (vk, loaded, right) = key_of-ok c file key k in
    (
      record {
        kdf = vk.kdf;
        mem_kib = vk.mem_kib;
        time = vk.time;
        par = vk.par;
        salt = vk.salt;
        nonce = x.encode nonce;
        ct = x.encode (x.sealed key nonce zipped);
      },
      rw (seal_tool_conf, loaded) (rw (m, sealed_plain) (rw (seal, z, right) refl)),
      rw
          (
            opened,
            inv.decode-encode nonce,
            inv.decode-encode (x.sealed key nonce zipped),
            inv.unsealed-sealed key nonce zipped,
            inv.gunzip-gzip plain zipped z,
            reads,
          )
          refl,
    )
