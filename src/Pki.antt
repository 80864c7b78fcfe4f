-- ===== src/Pki.antt =====
-- SignCSR of internal/pki/pki.go. The PEM, X.509 and random-number libraries are parameters.
use light_pn.Prelude.{ℕ, ◌+◌, ◌-◌, String, Bool, Option, none, some, Result, ok, err, if◌then◌else◌}

-- the fields that SignCSR chooses, the times in seconds
pub record Template : Type 0 where
  pub serial : ℕ
  pub common_name : String
  pub not_before : ℕ
  pub not_after : ℕ

-- what SignCSR uses of encoding/pem and crypto/x509, with the key of the CA inside `create`
pub record X509 (Csr : Type 0) : Type 0 where
  pub decode_pem : String → Option String
  pub parse_request : String → Option Csr
  pub check_signature : Csr → Bool
  pub create : Template → Csr → Option String
  pub encode_pem : String → String
  -- serial.Text(16)
  pub text_16 : ℕ → String

pub data SignError : Type 0 where
  invalid_pem bad_request bad_signature create_failed : SignError

module _ {Csr : Type 0} (x : X509 Csr) where
  abbrev pub certificate : Template → Option String → Result SignError (String × String)
  certificate t none = err create_failed
  certificate t (some der) = ok (x.encode_pem der, x.text_16 t.serial)

  -- the end of SignCSR, on a request that was parsed
  unfoldable pub sign : Csr → String → ℕ → ℕ → ℕ → Result SignError (String × String)
  sign csr id ttl now serial =
      let t : Template = record {
        serial = serial;
        common_name = id;
        not_before = now - 3600;
        not_after = now + ttl;
      } in
      if x.check_signature csr then certificate t (x.create t csr) else err bad_signature

  -- SignCSR; `serial` is the random number
  unfoldable pub sign_csr : String → String → ℕ → ℕ → ℕ → Result SignError (String × String)
  unfolding sign
  sign_csr pem id ttl now serial = elim (x.decode_pem pem) [
    | none ↦ err invalid_pem
    | some der ↦ elim (x.parse_request der) [
      | none ↦ err bad_request
      | some csr ↦ sign csr id ttl now serial
    ]
  ]
