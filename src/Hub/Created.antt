-- ===== src/Hub/Created.antt =====
-- What CreateLink of internal/hub/hub.go does to the tables: nothing, or one row more.
use light_pn.Prelude.{
  ℕ, ◌+◌, String, ◌≡◌, ◌≢◌, ◌⊎◌, refl, sym, ap, ◌∙◌, false, not, ◌&&◌, ◌||◌, [], ◌∷◌, ◌++◌, Option,
  none, some, ok, err, arith, ◌is◌, is_iff, has, Bool-cases, Option-cases, inl, inr,
}
use light_pn.Prelude.Map.{lookup, insert}
use light_pn.Hub.Session.{publish}
use light_pn.Store.{Link, Store, StoreError, self_link, foreign_key_violation, unique_violation}
use light_pn.Store.Nodes.{is_node}
use light_pn.Store.Links.{sort_pair, insert_link, is_link, same_pair}
use light_pn.Store.Links as Links
use light_pn.Proto.Kind
use light_pn.Hub.State.{Hub, World, WgIdent, link_changed}
use light_pn.Hub.Push.{send_peer_spec, push_ready, push_pair, ensure_link, push_link}
use light_pn.Hub.Pending.{push_pair-some}
use light_pn.Hub.Status.{link_status}
use light_pn.Hub.Admin.{refused, create_link}

-- the row that CreateLink writes
abbrev pub row : String → String → String → ℕ → Link
row id a b now = record {
  id = id;
  a = (sort_pair a b).0;
  b = (sort_pair a b).1;
  created_at = now;
  exit_node = "";
}

abbrev pub with_link : Link → Store → Store
with_link l st = record st { links = st.links ++ l ∷ [] }

insert_link-cases :
    (l : Link) (st : Store)
    → ((e : StoreError) × (insert_link l st ≡ (err e, st)))
      ⊎ (insert_link l st ≡ (ok tt, with_link l st))
unfolding insert_link
insert_link-cases l st =
    elim (Bool-cases (has (is_link l.id) st.links || has (same_pair l.a l.b) st.links)) [
      | inl h ↦ inl (unique_violation, rw (insert_link, h) refl)
      | inr h ↦ elim (Bool-cases (not (has (is_node l.a) st.nodes && has (is_node l.b) st.nodes))) [
        | inl k ↦ inl (foreign_key_violation, rw (insert_link, h) (rw k refl))
        | inr k ↦ inr (rw (insert_link, h) (rw k refl))
      ]
    ]

create_link-cases :
    (id a b : String) (now : ℕ) (st : Store)
    → ((e : StoreError) × (Links.create_link id a b now st ≡ (err e, st)))
      ⊎ ((a ≢ b)
          × (Links.create_link id a b now st
              ≡ (ok (row id a b now), with_link (row id a b now) st)))
unfolding Links.create_link
create_link-cases id a b now st = elim (Bool-cases (a is b)) [
  | inl h ↦ inl (self_link, rw (Links.create_link, h) refl)
  | inr h ↦ elim (insert_link-cases (row id a b now) st) [
    | inl (e, k) ↦ inl (e, rw (Links.create_link, h) (rw k refl))
    | inr k ↦ inr (λ e. cc (h, (is_iff a b).1 e), rw (Links.create_link, h) (rw k refl))
  ]
]

module _ {F : Type 0} (w : World F) where
  send_peer_spec-store :
      (r : ℕ) (l : Link) (kind peer : String) (i : WgIdent) (h : Hub F)
      → (send_peer_spec w r l kind peer i h).store ≡ h.store
  unfolding send_peer_spec
  send_peer_spec-store r l kind peer i h = ground arith

  ensure_link-store : (l : Link) (h : Hub F) → (ensure_link w l h).store ≡ h.store
  unfolding ensure_link
  ensure_link-store l h = ground arith

  push_ready-store :
      (l : Link) (kind : String) (p : Option ((ℕ × WgIdent) × (ℕ × WgIdent))) (h h' : Hub F)
      → push_ready w l kind p h ≡ some h'
      → h'.store ≡ h.store
  push_ready-store l kind none h h' e =
      let same : h ≡ h' = cc e in ap (λ (k : Hub F). k.store) (sym same)
  push_ready-store l kind (some ((ra, wa), (rb, wb))) h h' e =
      elim (Option-cases (lookup l.id h.links)) [
        | inl n ↦ cc (rw (n, push_ready) at e)
        | inr (rt, n) ↦
            let reset = record h {
              links = insert l.id (record rt { ack_a = false; ack_b = false }) h.links;
            } in
            let one = send_peer_spec w ra l kind l.b wb reset in
            let sent : send_peer_spec w rb l kind l.a wa one ≡ h' = cc (rw (n, push_ready) at e) in
            ap (λ (k : Hub F). k.store) (sym sent)
            ∙ send_peer_spec-store rb l kind l.a wa one
            ∙ send_peer_spec-store ra l kind l.b wb reset
      ]

  push_link-done :
      (l : Link) (h : Hub F) → (h' : Hub F) × (push_link w l h ≡ some h') × (h'.store ≡ h.store)
  unfolding push_link push_pair
  push_link-done l h =
      let (h', e) = push_pair-some w l Kind.peer_add h in
      (h', e, push_ready-store l Kind.peer_add _ (ensure_link w l h) h' e ∙ ensure_link-store l h)

  -- CreateLink of the hub: an error leaves the tables, and a success adds the row
  pub create_link-done :
      (a b : String) (now : ℕ) (h : Hub F)
      → ((x : StoreError) × (h' : Hub F) × (create_link w a b now h ≡ some (err (refused x), h'))
          × (h'.store ≡ h.store))
        ⊎ ((h' : Hub F) × (a ≢ b)
            × (create_link w a b now h ≡ some (ok (row (w.ulid h.next_id) a b now), h'))
            × (h'.store ≡ with_link (row (w.ulid h.next_id) a b now) h.store))
  unfolding create_link
  create_link-done a b now h =
      let h₀ = record h { next_id = h.next_id + 1 } in
      elim (create_link-cases (w.ulid h.next_id) a b now h.store) [
        | inl (x, e) ↦ inl (x, h₀, rw (create_link, e) refl, refl)
        | inr (n, e) ↦
            let l = row (w.ulid h.next_id) a b now in
            let (h', pushed_h, same) =
              push_link-done l (record h₀ { store = with_link l h.store }) in
            inr (
              publish (link_changed l.id (some (link_status l now h'))) h',
              n,
              rw (create_link, e) (rw pushed_h refl),
              same,
            )
      ]
