-- ===== src/Metrics/Tests.antt =====
-- Concrete runs of the metrics ring of internal/hub/ring.go, with one float.
use light_pn.Prelude.{
  ◌/◌, ◌%◌, ◌≡◌, ◌≢◌, ◌↔◌, refl, [], ◌∷◌, none, some, arith, pos, negsuc, keep_if, length-replicate,
  length,
}
use light_pn.Prelude.Map.{lookup}
use mathlib.Core.List.{Perm}
use light_pn.Proto.{SysMetrics}
use light_pn.Metrics.{
  Floats, NodeRing, Metrics, ring_slots, new_ring, ingest_ring, ingest, latest, range, in_window,
  blank, sample_of, ring_or_new,
}
use light_pn.Metrics.Slots.{ingest_ring-panics_iff, latest-ingest}
use light_pn.Metrics.Window.{Rising, range-sorted}

abbrev floats : Floats Unit
floats = record { nought = tt; percent = λ a b. tt; rate = λ a b. tt }

abbrev sys : SysMetrics Unit
sys = record {
  cpu_pct = tt;
  load1 = tt;
  mem_used = 1;
  mem_total = 2;
  disk_used = 1;
  disk_total = 2;
  net_rx = 0;
  net_tx = 0;
  uptime_s = 1;
}

abbrev ring : NodeRing Unit
ring = record {
  slots = record (blank floats) { ts = pos 60 } ∷ record (blank floats) { ts = pos 30 } ∷ [];
  last_ts = pos 60;
  prev_rx = 0;
  prev_tx = 0;
  prev_ts = pos 60;
}

new_ring-size : length (new_ring floats).slots ≡ ring_slots
unfolding new_ring
new_ring-size = length-replicate ring_slots (blank floats)

ingest_ring-panics_iff_example :
    (ingest_ring floats (new_ring floats) (negsuc 29) sys ≡ none) ↔ (30 / 30 % 2880 ≢ 0)
ingest_ring-panics_iff_example =
    ingest_ring-panics_iff floats (new_ring floats) (negsuc 29) sys new_ring-size

latest-ingest_example :
    (m : Metrics Unit) × (ingest floats "n" (pos 90) sys [] ≡ some m)
    × (length (ring_or_new floats (lookup "n" m)).slots ≡ ring_slots)
    × (latest "n" m ≡ some (some (sample_of floats (new_ring floats) (pos 90) sys)))
unfolding lookup new_ring
latest-ingest_example = latest-ingest floats [] "n" 90 sys (omega arith) new_ring-size

range-sorted_example :
    Rising (range "n" (pos 30) (pos 60) (("n", ring) ∷ []))
    × Perm
        (keep_if (in_window (pos 30) (pos 60)) ring.slots)
        (range "n" (pos 30) (pos 60) (("n", ring) ∷ []))
unfolding lookup
range-sorted_example = range-sorted "n" (pos 30) (pos 60) (("n", ring) ∷ []) ring refl
