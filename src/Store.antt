-- ===== src/Store.antt =====
-- internal/hub/store.go: the hub's SQLite tables and the statements over them. A table is a list
-- of rows in the order of insertion; a statement that a constraint refuses changes nothing.
pub mod Nodes
pub mod Links
pub mod Tokens
pub mod Ipam
pub mod Names
pub mod Valid
mod Tests
use light_pn.Prelude.{
  ℕ, String, Bool, true, false, List, [], ◌∷◌, map, Option, none, some, ok, err, ltb, if◌then◌else◌,
  ◌is◌, has, find_first,
}
use light_pn.Prelude.Map.{Map}
use light_pn.Prelude.Io.{Io}

-- the rows of `nodes`
pub record Node : Type 0 where
  pub id : String
  pub name : String
  pub overlay_ip : String
  pub cert_serial : String
  pub created_at : ℕ
  pub last_seen : ℕ
  pub revoked : Bool

-- the rows of `links`
pub record Link : Type 0 where
  pub id : String
  pub a : String
  pub b : String
  pub created_at : ℕ
  pub exit_node : String

-- the rows of `tokens`
pub record TokenRow : Type 0 where
  pub id : String
  pub hash : String
  pub note : String
  pub expires_at : ℕ
  pub used_at : Option ℕ

-- the rows of `admins`
pub record AdminRow : Type 0 where
  pub id : String
  pub username : String
  pub pw_hash : String

-- the rows of `svc_names`
pub record SvcName : Type 0 where
  pub node_id : String
  pub alias : String
  pub display : String

-- `ip_cooldown` has the address as its key and the time at which it was freed as its value.
pub record Store : Type 0 where
  pub nodes : List Node
  pub links : List Link
  pub tokens : List TokenRow
  pub admins : List AdminRow
  pub ip_cooldown : Map ℕ
  pub svc_names : List SvcName

abbrev pub empty_store : Store
empty_store = record {
  nodes = [];
  links = [];
  tokens = [];
  admins = [];
  ip_cooldown = [];
  svc_names = [];
}

-- the sentinel errors, and those of SQLite's constraints
pub data StoreError : Type 0 where
  not_found token_expired token_used unique_violation foreign_key_violation : StoreError
  self_link bad_exit_node bad_cidr ipam_exhausted : StoreError

-- a method of *Store
abbrev pub Tx : Type 0 → Type 0
Tx A = Io StoreError Store A

module _ {ℓ} {A : Type ℓ} where
  -- UPDATE t SET … WHERE p
  unfoldable pub update_where : (A → Bool) → (A → A) → List A → List A
  update_where p f [] = []
  update_where p f (x ∷ xs) = (if p x then f x else x) ∷ update_where p f xs

  -- ORDER BY key, rows with equal keys in the order of insertion
  unfoldable pub insert_by : (A → ℕ) → A → List A → List A
  insert_by key x [] = x ∷ []
  insert_by key x (y ∷ ys) =
      let rest = insert_by key x ys in if ltb (key y) (key x) then y ∷ rest else x ∷ y ∷ ys

  unfoldable pub order_by : (A → ℕ) → List A → List A
  unfolding insert_by
  order_by key [] = []
  order_by key (x ∷ xs) = insert_by key x (order_by key xs)

-- a row, or ErrNotFound
abbrev pub or_not_found : {A : Type 0} → Option A → Tx A
or_not_found none st = (err not_found, st)
or_not_found (some a) st = (ok a, st)
