-- ===== src/Agent/Exit.antt =====
-- Where a node's SOCKS proxy sends its traffic: ExitController of internal/agent/socks.go. An upstream
-- is its address. `build` says whether proxy.SOCKS5 accepts an address, and `pick` is the entry that
-- the map's iteration gives first, which Go leaves open.
pub mod Served
use light_pn.Prelude.{
  ℕ, String, Bool, true, false, not, List, [], ◌∷◌, Option, none, some, if◌then◌else◌, ◌is◌,
}
use light_pn.Prelude.Map.{Map, lookup, insert, delete}

pub record ExitController : Type 0 where
  pub up : Option String
  pub pinned : Option String
  pub exits : Map String

abbrev pub Pick : Type 0
Pick = Map String → Option String

-- NewExitController; `none` is its error
unfoldable pub new_exit_controller : (String → Bool) → String → Option ExitController
new_exit_controller build addr =
    if addr is ""
    then some (record { up = none; pinned = none; exits = [] })
    else if build addr
    then some (record { up = some addr; pinned = some addr; exits = [] })
    else none

-- the address that recompute chose, the empty text if there is none
abbrev pub chosen : Option String → String
chosen none = ""
chosen (some a) = a

-- recompute
unfoldable pub recompute : (String → Bool) → Pick → ExitController → ExitController
recompute build pick ec =
    let a = chosen (pick ec.exits) in
    if a is "" then record ec { up = none } else if build a then record ec { up = some a } else ec

abbrev pub is_pinned : Option String → Bool
is_pinned none = false
is_pinned (some _) = true

-- SetLinkExit
unfoldable pub set_link_exit :
    (String → Bool) → Pick → String → String → ExitController → ExitController
unfolding recompute
set_link_exit build pick link addr ec =
    if is_pinned ec.pinned
    then ec
    else recompute build pick (record ec {
      exits = if addr is "" then delete link ec.exits else insert link addr ec.exits;
    })

abbrev pub clear_had : (String → Bool) → Pick → Option String → ExitController → ExitController
clear_had build pick none ec = ec
clear_had build pick (some _) ec = recompute build pick ec

-- ClearByLink
unfoldable pub clear_by_link : (String → Bool) → Pick → String → ExitController → ExitController
unfolding recompute
clear_by_link build pick link ec =
    if is_pinned ec.pinned
    then ec
    else clear_had build pick (lookup link ec.exits) (record ec { exits = delete link ec.exits })

-- the loop of Reconcile
unfoldable pub copied : Map String → Map String
copied [] = []
copied ((link, addr) ∷ m) = insert link addr (copied m)

-- Reconcile
unfoldable pub reconcile : (String → Bool) → Pick → Map String → ExitController → ExitController
unfolding recompute copied
reconcile build pick by_link ec =
    if is_pinned ec.pinned then ec else recompute build pick (record ec { exits = copied by_link })
