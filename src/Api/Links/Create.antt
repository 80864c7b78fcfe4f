-- ===== src/Api/Links/Create.antt =====
-- What the panel's link creation does, from the request to the table: createLink of
-- internal/hub/api.go, hub.go and store.go.
use Prim.Native.String.{◌++◌ as text_append}
use light_pn.Prelude.{
  ℕ, String, ◌≡◌, ◌≢◌, ◌⊎◌, refl, true, ◌||◌, [], ◌∷◌, ◌++◌, none, some, ◌is◌, Bool-cases, inl, inr,
}
use light_pn.Store.Nodes.{get_node}
use light_pn.Store.Links.{sort_pair}
use light_pn.Hub.State.{Hub, World}
use light_pn.Hub.Status.{link_status}
use light_pn.Hub.Admin.{refused}
use light_pn.Api.{json, http_err, Message, text, hub_error}
use light_pn.Api.Links.{Ends, NewLink, is_live, unknown_node, create_link_reply, create_known}
use light_pn.Hub.Created.{row, create_link-done}

module _ {F : Type 0} where
  unknown_node-cases :
      (a b : String) (h : Hub F)
      → ((id : String) × (unknown_node (a ∷ b ∷ []) h ≡ some id))
        ⊎ ((unknown_node (a ∷ b ∷ []) h ≡ none)
            × (is_live ((get_node a h.store).0) ≡ true)
            × (is_live ((get_node b h.store).0) ≡ true))
  unfolding unknown_node
  unknown_node-cases a b h = elim (Bool-cases (is_live ((get_node a h.store).0))) [
    | inr x ↦ inl (a, rw (unknown_node, x) refl)
    | inl x ↦ elim (Bool-cases (is_live ((get_node b h.store).0))) [
      | inr y ↦ inl (b, rw (unknown_node, x, y) refl)
      | inl y ↦ inr (rw (unknown_node, x, y) refl, x, y)
    ]
  ]

-- The handler of the panel's link creation never panics on a body it can read. It answers an error
-- and leaves the tables; or it answers a new link between the two nodes of the body, in sorted
-- order, and the links have this row added at the end and no other change. Both nodes then exist,
-- are not revoked, and differ.
pub create_link_reply-outcome :
    {F : Type 0} (w : World F) (e : Ends) (now : ℕ) (h : Hub F)
    → ((code : ℕ) × (msg : Message) × (h' : Hub F) × (create_link_reply w (some e) now h
          ≡ some (http_err code msg, h'))
        × (h'.store ≡ h.store))
      ⊎ ((j : NewLink) × (h' : Hub F) × (create_link_reply w (some e) now h ≡ some (json j, h'))
          × (e.a ≢ e.b)
          × (is_live ((get_node e.a h.store).0) ≡ true)
          × (is_live ((get_node e.b h.store).0) ≡ true)
          × ((j.a, j.b) ≡ sort_pair e.a e.b)
          × (h'.store ≡ record h.store {
            links =
                h.store.links
                ++ record { id = j.id; a = j.a; b = j.b; created_at = now; exit_node = "" } ∷ [];
          }))
unfolding create_link_reply
create_link_reply-outcome w e now h = elim (Bool-cases (e.a is "" || e.b is "")) [
  | inl empty ↦
      inl (400, text "a and b node ids required", h, rw (create_link_reply, empty) refl, refl)
  | inr filled ↦ elim (unknown_node-cases e.a e.b h) [
    | inl (id, u) ↦ inl (
      400,
      text (text_append "unknown node " id),
      h,
      rw (create_link_reply, filled) (rw u refl),
      refl,
    )
    | inr (u, live_a, live_b) ↦ elim (create_link-done w e.a e.b now h) [
      | inl (x, h', c, same) ↦ inl (
        409,
        hub_error (refused x),
        h',
        rw (create_link_reply, filled) (rw (u, create_known) (rw c refl)),
        same,
      )
      | inr (h', n, c, same) ↦ inr (
        record {
          id = w.ulid h.next_id;
          a = (sort_pair e.a e.b).0;
          b = (sort_pair e.a e.b).1;
          status = link_status (row (w.ulid h.next_id) e.a e.b now) now h';
        },
        h',
        rw (create_link_reply, filled) (rw (u, create_known) (rw c refl)),
        n,
        live_a,
        live_b,
        refl,
        same,
      )
    ]
  ]
]
