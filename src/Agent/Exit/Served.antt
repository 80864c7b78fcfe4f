-- ===== src/Agent/Exit/Served.antt =====
-- The upstream in use is always one that the hub has designated.
use light_pn.Prelude.{
  String, ◌≡◌, ◌≢◌, refl, sym, ap, ◌∙◌, subst, ◌⊎◌, inl, inr, Bool, true, false, List, [], ◌∷◌,
  none, some, arith, if◌then◌else◌, ◌is◌, is_iff, Bool-cases, Option-cases, All,
}
use light_pn.Prelude.Map.{Map, lookup, insert, delete, lookup-insert, lookup-delete}
use light_pn.Agent.Exit.{
  ExitController, Pick, new_exit_controller, recompute, is_pinned, set_link_exit, clear_had,
  clear_by_link, copied, reconcile,
}

-- the iteration gives an entry of the map, and none only of an empty map
abbrev pub Picks : Pick → Type 0
Picks pick =
    (pick [] ≡ none)
    × ((m : Map String)
        → m ≢ []
        → (link : String) × (a : String) × (lookup link m ≡ some a) × (pick m ≡ some a))

-- No entry is the empty address.
abbrev Named : Map String → Type 0
Named m = (link : String) → lookup link m ≢ some ""

-- the upstream is the exit of a link, and none only if no link has one
abbrev pub IsServed : ExitController → Type 0
IsServed ec =
    ((ec.up ≡ none) × (ec.exits ≡ []))
    ⊎ ((link : String) × (a : String) × (ec.up ≡ some a) × (lookup link ec.exits ≡ some a))

empty-or-not : (m : Map String) → (m ≡ []) ⊎ (m ≢ [])
empty-or-not [] = inl refl
empty-or-not (e ∷ m) = inr (λ h. cc h)

recompute-IsServed :
    (build : String → Bool) (pick : Pick) (ec : ExitController)
    → ((a : String) → build a ≡ true)
    → Picks pick
    → Named ec.exits
    → IsServed (recompute build pick ec)
unfolding recompute
recompute-IsServed build pick ec builds picks named = elim (empty-or-not ec.exits) [
  | inl e ↦ inl (rw (e, picks.0, recompute) (refl, refl))
  | inr e ↦
      let (link, a, found, picked) = picks.1 ec.exits e in
      elim (Bool-cases (a is "")) [
        | inl blank ↦ absurd (named link (found ∙ ap some ((is_iff a "").0 blank)))
        | inr full ↦ inr (rw (picked, full, builds a, recompute) (link, a, refl, found))
      ]
]

delete-absent : (k : String) (m : Map String) → lookup k m ≡ none → delete k m ≡ m
unfolding lookup delete
delete-absent k [] e = refl
delete-absent k ((j, v) ∷ m) e = ground (arith, e, delete-absent k m)

Named-insert :
    (link a : String) (m : Map String) → a is "" ≡ false → Named m → Named (insert link a m)
Named-insert link a m full named k h =
    ground (arith, lookup-insert k link a m, is_iff a "", full, h, named k)

Named-delete : (link : String) (m : Map String) → Named m → Named (delete link m)
Named-delete link m named k h = ground (arith, lookup-delete k link m, h, named k)

lookup-copied : (k : String) (m : Map String) → lookup k (copied m) ≡ lookup k m
unfolding copied lookup
lookup-copied k [] = refl
lookup-copied k ((link, a) ∷ m) =
    ground (arith, lookup-insert k link a (copied m), lookup-copied k m)

-- the controller follows the hub, and its upstream is right
record IsSteady (ec : ExitController) : Type 0 where
  free : ec.pinned ≡ none
  named : Named ec.exits
  served : IsServed ec

-- what peer_add and peer_update, peer_remove, and register_ack do to the controller
pub data Event : Type 0 where
  sets : String → String → Event
  clears : String → Event
  reconciles : Map String → Event

unfoldable pub step : (String → Bool) → Pick × Event → ExitController → ExitController
unfolding set_link_exit clear_by_link reconcile
step build (pick, sets link a) ec = set_link_exit build pick link a ec
step build (pick, clears link) ec = clear_by_link build pick link ec
step build (pick, reconciles m) ec = reconcile build pick m ec

unfoldable pub run : (String → Bool) → List (Pick × Event) → ExitController → ExitController
unfolding step
run build [] ec = ec
run build (e ∷ es) ec = run build es (step build e ec)

-- a map's iteration, and no empty address in a register_ack
abbrev pub IsLawful : Pick × Event → Type 0
IsLawful (pick, reconciles m) = Picks pick × ((link : String) → lookup link m ≢ some "")
IsLawful (pick, _) = Picks pick

recompute-kept :
    (build : String → Bool) (pick : Pick) (ec : ExitController)
    → ((recompute build pick ec).exits ≡ ec.exits) × ((recompute build pick ec).pinned ≡ ec.pinned)
unfolding recompute
recompute-kept build pick ec = (ground arith, ground arith)

module _ (build : String → Bool) (builds : (a : String) → build a ≡ true) where
  recompute-IsSteady :
      (pick : Pick) (ec : ExitController)
      → ec.pinned ≡ none
      → Picks pick
      → Named ec.exits
      → IsSteady (recompute build pick ec)
  recompute-IsSteady pick ec free picks named =
      let (exits, pinned) = recompute-kept build pick ec in
      record {
        free = pinned ∙ free;
        named = λ link h. named link (ap (lookup link) (sym exits) ∙ h);
        served = recompute-IsServed build pick ec builds picks named;
      }

  set_link_exit-IsSteady :
      (pick : Pick) (link a : String) (ec : ExitController)
      → Picks pick
      → IsSteady ec
      → IsSteady (set_link_exit build pick link a ec)
  unfolding set_link_exit
  set_link_exit-IsSteady pick link a ec picks k =
      let after = record ec {
        exits = if a is "" then delete link ec.exits else insert link a ec.exits;
      } in
      subst (λ o. IsSteady (if is_pinned o then ec else recompute build pick after)) (sym k.free)
        (recompute-IsSteady pick after k.free picks (elim (Bool-cases (a is "")) [
          | inl blank ↦ rw blank (Named-delete link ec.exits k.named)
          | inr full ↦ rw full (Named-insert link a ec.exits full k.named)
        ]))

  clear_by_link-IsSteady :
      (pick : Pick) (link : String) (ec : ExitController)
      → Picks pick
      → IsSteady ec
      → IsSteady (clear_by_link build pick link ec)
  unfolding clear_by_link
  clear_by_link-IsSteady pick link ec picks k =
      let after = record ec { exits = delete link ec.exits } in
      subst
        (λ o.
          IsSteady (if is_pinned o then ec else clear_had build pick (lookup link ec.exits) after))
        (sym k.free)
        (elim (Option-cases (lookup link ec.exits)) [
          | inl absent ↦
              subst (λ o. IsSteady (clear_had build pick o after)) (sym absent)
                (subst (λ m. IsSteady (record ec { exits = m }))
                  (sym (delete-absent link ec.exits absent)) k)
          | inr (a, found) ↦
              subst (λ o. IsSteady (clear_had build pick o after)) (sym found)
                (recompute-IsSteady pick after k.free picks (Named-delete link ec.exits k.named))
        ])

  reconcile-IsSteady :
      (pick : Pick) (m : Map String) (ec : ExitController)
      → Picks pick
      → Named m
      → IsSteady ec
      → IsSteady (reconcile build pick m ec)
  unfolding reconcile
  reconcile-IsSteady pick m ec picks named k =
      let after = record ec { exits = copied m } in
      subst (λ o. IsSteady (if is_pinned o then ec else recompute build pick after)) (sym k.free)
        (recompute-IsSteady pick after k.free picks
          (λ link h. named link (sym (lookup-copied link m) ∙ h)))

  step-IsSteady :
      (e : Pick × Event) (ec : ExitController)
      → IsLawful e
      → IsSteady ec
      → IsSteady (step build e ec)
  unfolding step
  step-IsSteady (pick, sets link a) ec picks k = set_link_exit-IsSteady pick link a ec picks k
  step-IsSteady (pick, clears link) ec picks k = clear_by_link-IsSteady pick link ec picks k
  step-IsSteady (pick, reconciles m) ec laws k = reconcile-IsSteady pick m ec laws.0 laws.1 k

  run-IsSteady :
      (es : List (Pick × Event)) (ec : ExitController)
      → All IsLawful es
      → IsSteady ec
      → IsSteady (run build es ec)
  unfolding run
  run-IsSteady [] ec laws k = k
  run-IsSteady (e ∷ es) ec laws k =
      run-IsSteady es (step build e ec) laws.1 (step-IsSteady e ec laws.0 k)

abbrev empty_controller : ExitController
empty_controller = record { up = none; pinned = none; exits = [] }

Named-nil : Named []
unfolding lookup
Named-nil link h = cc h

new-IsSteady :
    (build : String → Bool) (ec : ExitController)
    → new_exit_controller build "" ≡ some ec
    → IsSteady ec
unfolding new_exit_controller
new-IsSteady build ec h =
    let new : empty_controller ≡ ec = cc h in
    subst IsSteady new (record { free = refl; named = Named-nil; served = inl (refl, refl) })

-- Without --exit-via, after any sequence of peer_add, peer_update, peer_remove and register_ack, in
-- whatever order the maps are iterated, the upstream is the designated exit of one of the links,
-- and traffic leaves directly only if no link has an exit; provided that proxy.SOCKS5 accepts every
-- address and no register_ack designates the empty address.
pub run-IsServed :
    (build : String → Bool) (es : List (Pick × Event)) (ec : ExitController)
    → ((a : String) → build a ≡ true)
    → All IsLawful es
    → new_exit_controller build "" ≡ some ec
    → IsServed (run build es ec)
run-IsServed build es ec builds laws new =
    (run-IsSteady build builds es ec laws (new-IsSteady build ec new)).served
