-- ===== src/Metrics.antt =====
-- internal/hub/ring.go: the metrics ring of each node. The floating-point type and the two
-- quotients that the code computes in it are parameters; a panic is `none`.
pub mod Slots
pub mod Window
mod Tests
use light_pn.Prelude.{
  ℕ, zero, suc, ◌+◌, ◌-◌, ◌<◌, String, Bool, true, false, ◌&&◌, List, [], ◌∷◌, ◌++◌, reverse,
  Option, none, some, ℤ, pos, negsuc, pos_part, neg_part, ltb_ℤ, leb_ℤ, eqb_ℤ, quot, rem, ◌-ℤ◌, ltb,
  leb, ◌==◌, if◌then◌else◌, set, get_elem?, replicate, length, keep_if,
}
use light_pn.Prelude.Map.{Map, lookup, insert, delete}
use light_pn.Proto.{SysMetrics}

-- const ringStep
abbrev pub ring_step : ℕ
ring_step = 30

-- const ringSlots
abbrev pub ring_slots : ℕ
ring_slots = 2880

-- what the code uses of float64
pub record Floats (F : Type 0) : Type 0 where
  pub nought : F
  -- float64(a) / float64(b) * 100
  pub percent : ℕ → ℕ → F
  -- float64(a) / float64(dt)
  pub rate : ℕ → ℤ → F

pub record Sample (F : Type 0) : Type 0 where
  pub ts : ℤ
  pub cpu_pct : F
  pub mem_pct : F
  pub disk_pct : F
  pub rx_rate : F
  pub tx_rate : F
  pub load1 : F
  pub mem_used : ℕ
  pub mem_total : ℕ

pub record NodeRing (F : Type 0) : Type 0 where
  pub slots : List (Sample F)
  pub last_ts : ℤ
  pub prev_rx : ℕ
  pub prev_tx : ℕ
  pub prev_ts : ℤ

-- map[string]*nodeRing
abbrev pub Metrics : Type 0 → Type 0
Metrics F = Map (NodeRing F)

-- `s[i] = v` on a slice or array: out of range it panics
unfoldable pub store_at : {A : Type 0} → List A → ℤ → A → Option (List A)
store_at xs (pos i) v = if ltb i (length xs) then some (set xs i v) else none
store_at xs (negsuc i) v = none

-- `s[i]`
unfoldable pub load_at : {A : Type 0} → List A → ℤ → Option A
load_at xs (pos i) = get_elem? xs i
load_at xs (negsuc i) = none

-- (ts/ringStep)%ringSlots
unfoldable pub slot_of : ℤ → ℤ
unfolding quot rem
slot_of ts = rem (quot ts ring_step) ring_slots

module _ {F : Type 0} (f : Floats F) where
  abbrev pub blank : Sample F
  blank = record {
    ts = pos 0;
    cpu_pct = f.nought;
    mem_pct = f.nought;
    disk_pct = f.nought;
    rx_rate = f.nought;
    tx_rate = f.nought;
    load1 = f.nought;
    mem_used = 0;
    mem_total = 0;
  }

  -- &nodeRing{}
  unfoldable pub new_ring : NodeRing F
  new_ring = record {
    slots = replicate ring_slots blank;
    last_ts = pos 0;
    prev_rx = 0;
    prev_tx = 0;
    prev_ts = pos 0;
  }

  -- the counters were read before, time went on, and neither counter was reset
  unfoldable pub has_rates : NodeRing F → ℤ → SysMetrics F → Bool
  has_rates r ts sys =
      ltb_ℤ (pos 0) r.prev_ts
      && ltb_ℤ r.prev_ts ts
      && leb r.prev_rx sys.net_rx
      && leb r.prev_tx sys.net_tx

  unfoldable pub sample_of : NodeRing F → ℤ → SysMetrics F → Sample F
  unfolding has_rates rem ◌-ℤ◌
  sample_of r ts sys = record {
    ts = ts -ℤ rem ts ring_step;
    cpu_pct = sys.cpu_pct;
    mem_pct = if ltb 0 sys.mem_total then f.percent sys.mem_used sys.mem_total else f.nought;
    disk_pct = if ltb 0 sys.disk_total then f.percent sys.disk_used sys.disk_total else f.nought;
    rx_rate =
        if has_rates r ts sys then f.rate (sys.net_rx - r.prev_rx) (ts -ℤ r.prev_ts) else f.nought;
    tx_rate =
        if has_rates r ts sys then f.rate (sys.net_tx - r.prev_tx) (ts -ℤ r.prev_ts) else f.nought;
    load1 = sys.load1;
    mem_used = sys.mem_used;
    mem_total = sys.mem_total;
  }

  unfoldable pub ingest_ring : NodeRing F → ℤ → SysMetrics F → Option (NodeRing F)
  unfolding sample_of store_at slot_of
  ingest_ring r ts sys = elim (store_at r.slots (slot_of ts) (sample_of r ts sys)) [
    | none ↦ none
    | some slots ↦ some (record {
      slots = slots;
      last_ts = ts;
      prev_rx = sys.net_rx;
      prev_tx = sys.net_tx;
      prev_ts = ts;
    })
  ]

  abbrev pub ring_or_new : Option (NodeRing F) → NodeRing F
  ring_or_new none = new_ring
  ring_or_new (some r) = r

  unfoldable pub ingest : String → ℤ → SysMetrics F → Metrics F → Option (Metrics F)
  unfolding ingest_ring new_ring
  ingest id ts sys m = elim (ingest_ring (ring_or_new (lookup id m)) ts sys) [
    | none ↦ none
    | some r ↦ some (insert id r m)
  ]

module _ {F : Type 0} where
  -- the inner loop of sortSamples: `s` moves left past the later samples of the sorted prefix,
  -- which is kept with its last sample first
  unfoldable pub move_left : Sample F → List (Sample F) → List (Sample F)
  move_left s [] = s ∷ []
  move_left s (t ∷ ts) =
      let rest = move_left s ts in if ltb_ℤ s.ts t.ts then t ∷ rest else s ∷ t ∷ ts

  -- the outer loop, over the samples that are not yet in the prefix
  unfoldable pub sort_from : List (Sample F) → List (Sample F) → List (Sample F)
  unfolding move_left
  sort_from sorted [] = reverse sorted
  sort_from sorted (s ∷ rest) = sort_from (move_left s sorted) rest

  unfoldable pub sort_samples : List (Sample F) → List (Sample F)
  unfolding sort_from
  sort_samples = sort_from []

  abbrev pub in_window : ℤ → ℤ → Sample F → Bool
  in_window from to s = leb_ℤ from s.ts && leb_ℤ s.ts to

  unfoldable pub range : String → ℤ → ℤ → Metrics F → List (Sample F)
  unfolding sort_samples
  range id from to m = elim (lookup id m) [
    | none ↦ []
    | some r ↦ sort_samples (keep_if (in_window from to) r.slots)
  ]

  -- the outer Option is a panic, the inner one the code's second result
  unfoldable pub latest : String → Metrics F → Option (Option (Sample F))
  unfolding load_at slot_of
  latest id m = elim (lookup id m) [
    | none ↦ some none
    | some r ↦
        if eqb_ℤ r.last_ts (pos 0)
        then some none
        else elim (load_at r.slots (slot_of r.last_ts)) [ none ↦ none | some s ↦ some (some s) ]
  ]

  unfoldable pub drop_node : String → Metrics F → Metrics F
  drop_node id m = delete id m
