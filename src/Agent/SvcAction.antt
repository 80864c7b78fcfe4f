-- ===== src/Agent/SvcAction.antt =====
-- Carrying out a service command: handleSvcAction of internal/agent/svccmd.go, and collectSvcStatus of
-- svcctl.go. systemd is a parameter: a state and what SvcManager does to it.
pub mod Carried
use light_pn.Prelude.{
  ℕ, String, Bool, true, false, List, [], ◌∷◌, map, Option, none, some, Result, ok, err, ℤ,
}
use light_pn.Prelude.Map.{Map}
use light_pn.Proto.{Bytes, SvcStatus, SvcActionData, SvcResultData}
use light_pn.Agent.SvcCmd.{SvcCmd, KeyFile, SvcError, Crypto, open_svc_cmd}
use light_pn.Agent.Registry.{SvcEntry, RegError, RegLib, load_svc_reg, lookup_svc}

-- SvcManager on a state `S`: a unit's ActiveState and UnitFileState, and an action, `none` or the text
-- of its error
pub record SvcManager (S : Type 0) : Type 0 where
  pub status : String → S → String × String
  pub act : String → String → S → Option String × S

-- why a command was not carried out
pub data Refusal : Type 0 where
  rejected : SvcError → Refusal
  unknown_alias : RegError → Refusal
  unavailable : Refusal

abbrev status_of : SvcEntry → String × String → SvcStatus
status_of e (active, enabled) = record { alias = e.alias; active = active; enabled = enabled }

module _ {S : Type 0} where
  abbrev statuses : SvcManager S → S → Result RegError (List SvcEntry) → List SvcStatus
  statuses m s (err _) = []
  statuses m s (ok reg) = map (λ e. status_of e (m.status e.unit s)) reg

  -- collectSvcStatus; the manager is nil on a build without service control
  unfoldable pub collect_svc_status :
      RegLib → Option Bytes → Option (SvcManager S) → S → List SvcStatus
  unfolding load_svc_reg
  collect_svc_status lib file none s = []
  collect_svc_status lib file (some m) s = statuses m s (load_svc_reg lib file)

  abbrev refusal :
      (Refusal → String)
      → RegLib
      → Option Bytes
      → Option (SvcManager S)
      → Refusal
      → S
      → SvcResultData × S
  refusal show lib file m r s =
      (record { okay = false; error = show r; services = collect_svc_status lib file m s }, s)

  abbrev pub done :
      RegLib → Option Bytes → Option (SvcManager S) → Option String × S → SvcResultData × S
  done lib file m (none, s) =
      (record { okay = true; error = ""; services = collect_svc_status lib file m s }, s)
  done lib file m (some e, s) =
      (record { okay = false; error = e; services = collect_svc_status lib file m s }, s)

  -- the command on the unit that its alias names
  abbrev pub carry_out :
      (Refusal → String)
      → RegLib
      → Option Bytes
      → Option (SvcManager S)
      → SvcCmd
      → S
      → Result RegError String
      → SvcResultData × S
  carry_out show lib file m cmd s (err e) = refusal show lib file m (unknown_alias e) s
  carry_out show lib file none cmd s (ok unit) =
      (record { okay = false; error = show unavailable; services = [] }, s)
  carry_out show lib file (some m) cmd s (ok unit) =
      done lib file (some m) (m.act cmd.action unit s)

  abbrev pub handled :
      (Refusal → String)
      → RegLib
      → Option Bytes
      → Option (SvcManager S)
      → S
      → Result SvcError SvcCmd × Map ℤ
      → (SvcResultData × S) × Map ℤ
  handled show lib file m s (err e, seen) = (refusal show lib file m (rejected e) s, seen)
  handled show lib file m s (ok cmd, seen) =
      (carry_out show lib file m cmd s (lookup_svc lib cmd.alias file), seen)

  -- handleSvcAction: `key` is view.key and `file` services.json; the texts of errors are `show`'s
  unfoldable pub handle_svc_action :
      (Refusal → String)
      → Crypto
      → RegLib
      → KeyFile
      → Option Bytes
      → Option (SvcManager S)
      → SvcActionData
      → ℕ
      → Map ℤ
      → S
      → (SvcResultData × S) × Map ℤ
  unfolding open_svc_cmd lookup_svc collect_svc_status
  handle_svc_action show c lib key file m d now seen s =
      handled show lib file m s (open_svc_cmd c key d now seen)
