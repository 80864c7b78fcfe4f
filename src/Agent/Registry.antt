-- ===== src/Agent/Registry.antt =====
-- The service registry: internal/agent/svcreg.go. The registry file is absent or holds bytes; regular
-- expressions, path.IsAbs and encoding/json are parameters, and so is whether a write succeeds.
pub mod Entries
use Prim.Native.String.{compare}
use text.Mathlib.Text.{is_lt}
use light_pn.Prelude.{
  ℕ, String, Bool, true, false, not, ◌&&◌, List, [], ◌∷◌, ◌++◌, Option, none, some, Result, ok, err,
  ◌==◌, length, keep_if, find_first, has, if◌then◌else◌, ◌is◌,
}
use light_pn.Proto.{Bytes, Json}

pub record SvcEntry : Type 0 where
  pub alias : String
  pub unit : String
  pub conf : String

pub data RegError : Type 0 where
  bad_alias bad_unit bad_conf malformed io_failed alias_taken unit_taken not_registered : RegError

-- what the registry uses of other libraries
pub record RegLib : Type 0 where
  pub matches : String → String → Bool
  pub is_abs : String → Bool
  pub json : Json (List SvcEntry)
  pub writes : Bytes → Bool

-- aliasRE and unitRE
abbrev pub alias_re : String
alias_re = "^[a-z0-9][a-z0-9-]{0,31}$"

abbrev pub unit_re : String
unit_re = "^[A-Za-z0-9_.@-]+\\.service$"

-- sort.Slice by alias
unfoldable pub insert_entry : SvcEntry → List SvcEntry → List SvcEntry
insert_entry e [] = e ∷ []
insert_entry e (x ∷ xs) =
    let rest = insert_entry e xs in if is_lt (compare x.alias e.alias) then x ∷ rest else e ∷ x ∷ xs

unfoldable pub sort_entries : List SvcEntry → List SvcEntry
unfolding insert_entry
sort_entries [] = []
sort_entries (e ∷ es) = insert_entry e (sort_entries es)

abbrev pub has_alias : String → SvcEntry → Bool
has_alias alias e = e.alias is alias

abbrev pub has_unit : String → SvcEntry → Bool
has_unit unit e = e.unit is unit

-- the loop of AddSvc over the entries: the first that clashes
unfoldable pub clash : String → String → List SvcEntry → Option RegError
clash alias unit [] = none
clash alias unit (e ∷ es) =
    let rest = clash alias unit es in
    if e.alias is alias then some alias_taken else if e.unit is unit then some unit_taken else rest

abbrev pub unit_of : Option SvcEntry → Result RegError String
unit_of none = err not_registered
unit_of (some e) = ok e.unit

module _ (lib : RegLib) where
  -- LoadSvcReg: an absent file is an empty registry
  unfoldable pub load_svc_reg : Option Bytes → Result RegError (List SvcEntry)
  load_svc_reg none = ok []
  load_svc_reg (some b) = elim (lib.json.unmarshal b) [ none ↦ err malformed | some reg ↦ ok reg ]

  abbrev pub written : Option Bytes → Option Bytes → Result RegError Unit × Option Bytes
  written none file = (err malformed, file)
  written (some b) file = if lib.writes b then (ok tt, some b) else (err io_failed, file)

  -- saveSvcReg; a write that fails is taken to leave the file
  unfoldable pub save_svc_reg : List SvcEntry → Option Bytes → Result RegError Unit × Option Bytes
  unfolding sort_entries
  save_svc_reg reg file = written (lib.json.marshal (sort_entries reg)) file

  abbrev pub add_to :
      SvcEntry
      → Option Bytes
      → List SvcEntry
      → Option RegError
      → Result RegError Unit × Option Bytes
  add_to e file reg (some x) = (err x, file)
  add_to e file reg none = save_svc_reg (reg ++ e ∷ []) file

  abbrev pub add_loaded :
      SvcEntry
      → Option Bytes
      → Result RegError (List SvcEntry)
      → Result RegError Unit × Option Bytes
  add_loaded e file (err x) = (err x, file)
  add_loaded e file (ok reg) = add_to e file reg (clash e.alias e.unit reg)

  -- AddSvc
  unfoldable pub add_svc : SvcEntry → Option Bytes → Result RegError Unit × Option Bytes
  unfolding load_svc_reg clash save_svc_reg
  add_svc e file =
      if not (lib.matches alias_re e.alias)
      then (err bad_alias, file)
      else if not (lib.matches unit_re e.unit)
      then (err bad_unit, file)
      else if not (e.conf is "") && not (lib.is_abs e.conf)
      then (err bad_conf, file)
      else add_loaded e file (load_svc_reg file)

  abbrev pub del_loaded :
      String → Option Bytes → Result RegError (List SvcEntry) → Result RegError Unit × Option Bytes
  del_loaded alias file (err x) = (err x, file)
  del_loaded alias file (ok reg) =
      let kept = keep_if (λ e. not (has_alias alias e)) reg in
      if length kept == length reg then (err not_registered, file) else save_svc_reg kept file

  -- DelSvc
  unfoldable pub del_svc : String → Option Bytes → Result RegError Unit × Option Bytes
  unfolding load_svc_reg save_svc_reg
  del_svc alias file = del_loaded alias file (load_svc_reg file)

  -- lookupSvc
  unfoldable pub lookup_svc : String → Option Bytes → Result RegError String
  unfolding load_svc_reg
  lookup_svc alias file = elim (load_svc_reg file) [
    | err x ↦ err x
    | ok reg ↦ unit_of (find_first (has_alias alias) reg)
  ]
