-- ===== src/Agent/SvcAction/Carried.antt =====
-- What reaches systemd: handleSvcAction of internal/agent/svccmd.go.
use light_pn.Prelude.{
  ℕ, String, ◌≡◌, ◌≢◌, ◌⊎◌, refl, subst, true, false, List, Option, none, some, Result, ok, err, ℤ,
  Bool-cases, Option-cases, inl, inr, length, ◌==◌,
}
use light_pn.Prelude.Map.{Map}
use light_pn.Proto.{Bytes, SvcActionData, SvcResultData}
use light_pn.Agent.SvcCmd.{
  SvcCmd, KeyFile, SvcError, Crypto, is_action, allowed, decrypted, with_nonce, with_key, key_of,
  unseal, open_svc_cmd,
}
use light_pn.Agent.SvcCmd.Replay.{Call, serve, InOrder, accept-ok, open_svc_cmd-once}
use light_pn.Agent.Registry.{RegError, RegLib, lookup_svc}
use light_pn.Agent.SvcAction.{SvcManager, Refusal, done, carry_out, handled, handle_svc_action}

-- an unsealed command has an allowed action
allowed-is_action :
    (o : Option SvcCmd) (cmd : SvcCmd) → allowed o ≡ ok cmd → is_action cmd.action ≡ true
allowed-is_action none cmd h = cc h
allowed-is_action (some x) cmd h = elim (Bool-cases (is_action x.action)) [
  | inl e ↦
      let same : x ≡ cmd = cc (rw e at h) in
      subst (λ (y : SvcCmd). is_action y.action ≡ true) same e
  | inr e ↦ cc (rw e at h)
]

decrypted-is_action :
    (c : Crypto) (o : Option Bytes) (cmd : SvcCmd)
    → decrypted c o ≡ ok cmd
    → is_action cmd.action ≡ true
decrypted-is_action c none cmd h = cc h
decrypted-is_action c (some plain) cmd h = allowed-is_action (c.unmarshal_cmd plain) cmd h

with_nonce-is_action :
    (c : Crypto) (key ct nonce : Bytes) (cmd : SvcCmd)
    → with_nonce c key ct nonce ≡ ok cmd
    → is_action cmd.action ≡ true
with_nonce-is_action c key ct nonce cmd h = elim (Bool-cases (length nonce == c.nonce_size)) [
  | inl e ↦ decrypted-is_action c (c.unsealed key nonce ct) cmd (rw e at h)
  | inr e ↦ cc (rw e at h)
]

with_key-is_action :
    (c : Crypto) (d : SvcActionData) (r : Result SvcError Bytes) (cmd : SvcCmd)
    → with_key c d r ≡ ok cmd
    → is_action cmd.action ≡ true
with_key-is_action c d (err e) cmd h = cc h
with_key-is_action c d (ok key) cmd h = elim (Option-cases (c.decode d.nonce)) [
  | inl n ↦ cc (rw (n, with_key) at h)
  | inr (nonce, n) ↦ elim (Option-cases (c.decode d.ct)) [
    | inl t ↦ cc (rw (n, t, with_key) at h)
    | inr (ct, t) ↦ with_nonce-is_action c key ct nonce cmd (rw (n, t, with_key) at h)
  ]
]

open_svc_cmd-is_action :
    (c : Crypto) (file : KeyFile) (d : SvcActionData) (now : ℕ) (seen : Map ℤ) (cmd : SvcCmd)
    → (open_svc_cmd c file d now seen).0 ≡ ok cmd
    → is_action cmd.action ≡ true
unfolding open_svc_cmd unseal
open_svc_cmd-is_action c file d now seen cmd h =
    with_key-is_action c d (key_of c file) cmd
      (accept-ok d.nonce now (unseal c file d) cmd seen h).0

module _ {S : Type 0} (show : Refusal → String) (lib : RegLib) (file : Option Bytes) where
  done-state : (m : Option (SvcManager S)) (p : Option String × S) → (done lib file m p).1 ≡ p.1
  done-state m (none, s) = refl
  done-state m (some e, s) = refl

  carry_out-cases :
      (m : Option (SvcManager S)) (cmd : SvcCmd) (s : S) (r : Result RegError String)
      → let done = carry_out show lib file m cmd s r in
        ((done.0.okay ≡ false) × (done.1 ≡ s))
        ⊎ ((unit : String) × (mgr : SvcManager S) × (m ≡ some mgr)
            × (r ≡ ok unit)
            × (done.1 ≡ (mgr.act cmd.action unit s).1))
  carry_out-cases m cmd s (err e) = inl (refl, refl)
  carry_out-cases none cmd s (ok unit) = inl (refl, refl)
  carry_out-cases (some mgr) cmd s (ok unit) =
      inr (unit, mgr, refl, refl, done-state (some mgr) (mgr.act cmd.action unit s))

  handled-rejected :
      (m : Option (SvcManager S)) (s : S) (p : Result SvcError SvcCmd × Map ℤ)
      → ((cmd : SvcCmd) → p.0 ≢ ok cmd)
      → ((handled show lib file m s p).0.0.okay ≡ false) × ((handled show lib file m s p).0.1 ≡ s)
  handled-rejected m s (err e, seen) h = (refl, refl)
  handled-rejected m s (ok cmd, seen) h = absurd (h cmd refl)

  -- systemd is left alone, or it did an allowed action on the registered unit
  abbrev pub Outcome :
      Option (SvcManager S) → Result SvcError SvcCmd → S → SvcResultData × S → Type 0
  Outcome m opens s r =
      ((r.0.okay ≡ false) × (r.1 ≡ s))
      ⊎ ((cmd : SvcCmd) × (unit : String) × (mgr : SvcManager S) × (m ≡ some mgr)
          × (opens ≡ ok cmd)
          × (is_action cmd.action ≡ true)
          × (lookup_svc lib cmd.alias file ≡ ok unit)
          × (r.1 ≡ (mgr.act cmd.action unit s).1))

  handled-Outcome :
      (m : Option (SvcManager S)) (s : S) (p : Result SvcError SvcCmd × Map ℤ)
      → ((cmd : SvcCmd) → p.0 ≡ ok cmd → is_action cmd.action ≡ true)
      → Outcome m p.0 s (handled show lib file m s p).0
  handled-Outcome m s (err e, seen) h = inl (refl, refl)
  handled-Outcome m s (ok cmd, seen) h =
      elim (carry_out-cases m cmd s (lookup_svc lib cmd.alias file)) [
        | inl refused ↦ inl refused
        | inr (unit, mgr, is_mgr, found, acted) ↦
            inr (cmd, unit, mgr, is_mgr, refl, h cmd refl, found, acted)
      ]

-- Whatever sealed command is sent: systemd is left alone and the answer is not OK; or openSvcCmd
-- accepted the command, its action is start, stop or restart, and systemd did this action, once and
-- nothing else, on the unit that the registry has for the command's alias.
pub handle_svc_action-Outcome :
    {S : Type 0} (show : Refusal → String) (c : Crypto) (lib : RegLib) (key : KeyFile)
    (file : Option Bytes) (m : Option (SvcManager S)) (d : SvcActionData) (now : ℕ) (seen : Map ℤ)
    (s : S)
    → Outcome show lib file m
        (open_svc_cmd c key d now seen).0
        s
        (handle_svc_action show c lib key file m d now seen s).0
unfolding handle_svc_action
handle_svc_action-Outcome show c lib key file m d now seen s =
    handled-Outcome show lib file m s (open_svc_cmd c key d now seen)
      (open_svc_cmd-is_action c key d now seen)

-- A sealed command that was accepted never reaches systemd again: whatever commands are served in
-- between, and whatever the registry and the state of systemd then are, handling it again leaves systemd
-- alone and is not OK; as long as the clock does not go back and view.key stays.
pub handle_svc_action-once :
    {S : Type 0} (show : Refusal → String) (c : Crypto) (lib : RegLib) (key : KeyFile)
    (d : SvcActionData) (now : ℕ) (seen : Map ℤ) (cmd : SvcCmd)
    → (open_svc_cmd c key d now seen).0 ≡ ok cmd
    → (cs : List Call) (later : ℕ) → InOrder now cs later
    → (file : Option Bytes) (m : Option (SvcManager S)) (s : S)
    → let again =
        handle_svc_action show c lib key file m d later
          (serve c cs (open_svc_cmd c key d now seen).1)
          s in
      (again.0.0.okay ≡ false) × (again.0.1 ≡ s)
unfolding handle_svc_action
handle_svc_action-once show c lib key d now seen cmd h cs later order file m s =
    handled-rejected show lib file m s _
      (λ x. open_svc_cmd-once c key d now seen cmd h cs later order x)
