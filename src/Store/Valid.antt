-- ===== src/Store/Valid.antt =====
-- The invariant of the hub's tables, beyond what one statement's constraint checks.
pub mod Tables
pub mod Nodes
pub mod Links
pub mod Calls
use Prim.Native.String.{compare}
use text.Mathlib.Text.{is_lt}
use light_pn.Prelude.{String, ◌≡◌, Bool, true, false, List, [], ◌∷◌, ◌is◌, has, All, length}
use light_pn.Store.{Node, Link, Store}
use light_pn.Store.Nodes.{is_node, freed_ip}
use light_pn.Store.Links.{is_end, same_pair}

-- no two rows have the same text under `f`
abbrev pub Distinct {ℓ} : {A : Type ℓ} → (A → String) → List A → Type ℓ
Distinct f [] = Unit
Distinct f (x ∷ xs) = (has (λ y. f y is f x) xs ≡ false) × Distinct f xs

-- a revoked row keeps no address
abbrev pub IsParked : Node → Type 0
IsParked n = n.revoked ≡ true → n.overlay_ip ≡ freed_ip n.id

-- A link's ends exist, stand in order, and its exit, if any, is one of them.
pub record IsSound (nodes : List Node) (l : Link) : Type 0 where
  pub a_exists : has (is_node l.a) nodes ≡ true
  pub b_exists : has (is_node l.b) nodes ≡ true
  pub ordered : is_lt (compare l.a l.b) ≡ true
  pub exit_is_end : is_end l.exit_node l ≡ true

-- no two links join the same pair
abbrev pub DistinctPairs : List Link → Type 0
DistinctPairs [] = Unit
DistinctPairs (l ∷ ls) = (has (same_pair l.a l.b) ls ≡ false) × DistinctPairs ls

pub record IsValid (st : Store) : Type 0 where
  pub node_ids : Distinct (λ (n : Node). n.id) st.nodes
  pub node_ips : Distinct (λ (n : Node). n.overlay_ip) st.nodes
  pub parked : All IsParked st.nodes
  pub link_ids : Distinct (λ (l : Link). l.id) st.links
  pub link_pairs : DistinctPairs st.links
  pub links_sound : All (IsSound st.nodes) st.links
