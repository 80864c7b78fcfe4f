-- ===== src/Agent/Tests.antt =====
-- Concrete runs of the agent's service commands, internal/agent/svccmd.go, with a cipher that
-- accepts everything.
mod Peers
mod Conf
mod Messages
use light_pn.Prelude.{
  Option, ap, subst, false, not, ◌&&◌, ◌==◌, length, ◌is◌, if◌then◌else◌, Bool-cases, inl, inr,
  String, none, is_iff, is_refl, true, List, ◌≡◌, ◌≢◌, refl, [], ◌∷◌, some, ok, arith, pos,
  replicate,
}
use light_pn.Prelude.Map.{lookup}
use light_pn.Proto.{Bytes, SvcActionData}
use light_pn.Agent.SvcCmd.{Crypto, content, SvcCmd, open_svc_cmd}
use light_pn.Agent.SvcCmd.Respelled.{open_svc_cmd-respelled}
use light_pn.Agent.Registry.{SvcEntry, RegLib, alias_re, unit_re, add_svc, lookup_svc}
use light_pn.Agent.Registry.Entries.{Reads, lookup_svc-add_svc}
use light_pn.Agent.Exit.{ExitController, Pick, new_exit_controller}
use light_pn.Agent.Exit.Served.{Picks, Event, sets, clears, run, IsServed, run-IsServed}
use light_pn.Agent.SvcCmd.Replay.{serve, open_svc_cmd-once}

abbrev pub restart : SvcCmd
restart = record { action = "restart"; alias = "proxy"; ts = pos 1000 }

abbrev pub crypto : Crypto
crypto = record {
  decode = λ s. some (replicate 32 0);
  nonce_size = 32;
  unsealed = λ key nonce ct. some ct;
  unmarshal_key = λ b.
      some
        (record { kdf = "argon2id"; mem_kib = 65_536; time = 3; par = 1; salt = "s"; key = "k" });
  unmarshal_cmd = λ b. some restart;
}

abbrev pub command : SvcActionData
command = record { nonce = "bm9uY2U="; ct = "Y3Q=" }

accepted : (open_svc_cmd crypto (content []) command 1100 []).0 ≡ ok restart
unfolding open_svc_cmd lookup
accepted = refl

open_svc_cmd-once_example :
    (open_svc_cmd crypto (content []) command 1300 (
      serve crypto
        ((content [], command, 1200) ∷ [])
        (open_svc_cmd crypto (content []) command 1100 []).1)).0
    ≢ ok restart
open_svc_cmd-once_example =
    open_svc_cmd-once crypto (content []) command 1100 [] restart accepted
      ((content [], command, 1200) ∷ []) 1300 (omega arith, omega arith) restart

differs : ◌≢◌ {A = String} "bm9uY2U=\n" "bm9uY2U="
differs h = cc ((is_iff "bm9uY2U=\n" "bm9uY2U=").1 h)

open_svc_cmd-respelled_example :
    (open_svc_cmd crypto
      (content [])
      (record { nonce = "bm9uY2U=\n"; ct = "Y3Q=" })
      1100
      (open_svc_cmd crypto (content []) command 1100 []).1).0
    ≡ ok restart
unfolding lookup
open_svc_cmd-respelled_example =
    open_svc_cmd-respelled crypto (content []) "bm9uY2U=" "bm9uY2U=\n" "Y3Q=" 1100 [] restart refl
      differs refl accepted

-- an iteration that gives the first entry of the list
abbrev pub first_entry : Pick
first_entry [] = none
first_entry ((link, a) ∷ m) = some a

first_entry-Picks : Picks first_entry
unfolding lookup
first_entry-Picks = (
  refl,
  elim [
    | [] ↦ λ h. absurd (h refl)
    | (link, a) ∷ m ↦ λ h. (link, a, ground (arith, is_refl link), refl)
  ],
)

abbrev events : List (Pick × Event)
events = (first_entry, sets "l" "100.100.0.9:1080") ∷ (first_entry, clears "l") ∷ []

abbrev controller : ExitController
controller = record { up = none; pinned = none; exits = [] }

run-IsServed_example : IsServed (run (λ a. true) events controller)
unfolding new_exit_controller
run-IsServed_example =
    run-IsServed (λ a. true) events controller (λ a. refl)
      (first_entry-Picks, (first_entry-Picks, tt)) refl

abbrev pub entry : SvcEntry
entry = record { alias = "proxy"; unit = "xray.service"; conf = "" }

-- a JSON library that writes a registry of no entry, or of this one
abbrev write_registry : List SvcEntry → Option Bytes
write_registry [] = some []
write_registry (e ∷ es) =
    if e.alias is "proxy" && (e.unit is "xray.service" && e.conf is "") && length es == 0
    then some (1 ∷ [])
    else none

abbrev read_registry : Bytes → Option (List SvcEntry)
read_registry [] = some []
read_registry (n ∷ b) = some (entry ∷ [])

abbrev pub lib : RegLib
lib = record {
  matches = λ re s. true;
  is_abs = λ s. true;
  json = record { marshal = write_registry; unmarshal = read_registry };
  writes = λ b. true;
}

entry_is :
    (e : SvcEntry)
    → (e.alias is "proxy" && (e.unit is "xray.service" && e.conf is "")) ≡ true
    → entry ≡ e
entry_is e h =
    let a : e.alias ≡ "proxy" = (is_iff e.alias "proxy").0 (ground (arith, h)) in
    let u : e.unit ≡ "xray.service" = (is_iff e.unit "xray.service").0 (ground (arith, h)) in
    let c : e.conf ≡ "" = (is_iff e.conf "").0 (ground (arith, h)) in cc

lib-Reads : Reads lib
lib-Reads [] b h = let b_is : [] ≡ b = cc h in subst (λ x. read_registry x ≡ some []) b_is refl
lib-Reads (e ∷ (x ∷ es)) b h = ground (arith, h)
lib-Reads (e ∷ []) b h =
    elim (Bool-cases (e.alias is "proxy" && (e.unit is "xray.service" && e.conf is ""))) [
      | inr f ↦ ground (arith, h, f)
      | inl t ↦
          let b_is : 1 ∷ [] ≡ b = ground (arith, h, t) in
          subst (λ x. read_registry x ≡ some (e ∷ [])) b_is (ap (λ y. some (y ∷ [])) (entry_is e t))
    ]

added : add_svc lib entry none ≡ (ok tt, some (1 ∷ []))
unfolding add_svc
added = refl

lookup_svc-add_svc_example :
    (lib.matches alias_re "proxy" ≡ true)
    × (lib.matches unit_re "xray.service" ≡ true)
    × (not ("" is "") && not (lib.is_abs "") ≡ false)
    × (lookup_svc lib "proxy" (some (1 ∷ [])) ≡ ok "xray.service")
lookup_svc-add_svc_example = lookup_svc-add_svc lib entry none (some (1 ∷ [])) lib-Reads added
