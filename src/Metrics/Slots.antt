-- ===== src/Metrics/Slots.antt =====
-- When Ingest stores its sample and when it panics, and what Latest then answers.
use light_pn.Prelude.{
  ℕ, zero, suc, ◌-◌, ◌/◌, ◌%◌, ◌<◌, ◌≡◌, ◌≢◌, ◌↔◌, refl, ◌∙◌, String, false, List, [], ◌∷◌, none,
  some, arith, ℤ, pos, negsuc, neg_part, quot, rem, eqb_ℤ, lt→ltb, set, get_elem?, length,
  length-set, ℕ_discrete,
}
use light_pn.Prelude.Map.{lookup, insert, lookup-insert_self}
use light_pn.Proto.{SysMetrics}
use light_pn.Metrics.{
  ring_slots, Floats, Sample, NodeRing, Metrics, store_at, load_at, slot_of, sample_of, ingest_ring,
  ring_or_new, ingest, latest,
}

get_elem?-set_self :
    {A : Type 0} (xs : List A) (i : ℕ) (v : A) → i < length xs → get_elem? (set xs i v) i ≡ some v
get_elem?-set_self [] i v h = elim h [ ]
get_elem?-set_self (x ∷ xs) zero v h = refl
get_elem?-set_self (x ∷ xs) (suc i) v h = get_elem?-set_self xs i v (omega arith)

-- the slot of a time that is not negative
slot_of-pos : (n : ℕ) → slot_of (pos n) ≡ pos (n / 30 % 2880)
unfolding slot_of quot rem
slot_of-pos n = refl

-- the slot of a negative time is the slot 0, or no slot at all
slot_of-zero : (n : ℕ) → suc n / 30 % 2880 ≡ 0 → slot_of (negsuc n) ≡ pos 0
unfolding slot_of quot rem
slot_of-zero n h = ground arith

slot_of-negsuc :
    (n : ℕ) → suc n / 30 % 2880 ≢ 0 → slot_of (negsuc n) ≡ negsuc (suc n / 30 % 2880 - 1)
unfolding slot_of quot rem
slot_of-negsuc n h = ground arith

module _ {F : Type 0} (f : Floats F) where
  ingest_ring-pos :
      (r : NodeRing F) (ts : ℤ) (i : ℕ) (sys : SysMetrics F)
      → slot_of ts ≡ pos i
      → i < length r.slots
      → ingest_ring f r ts sys
        ≡ some (record {
          slots = set r.slots i (sample_of f r ts sys);
          last_ts = ts;
          prev_rx = sys.net_rx;
          prev_tx = sys.net_tx;
          prev_ts = ts;
        })
  unfolding ingest_ring store_at
  ingest_ring-pos r ts i sys e h = rw (e, ingest_ring) (rw (lt→ltb i (length r.slots) h) refl)

  ingest_ring-neg :
      (r : NodeRing F) (ts : ℤ) (i : ℕ) (sys : SysMetrics F)
      → slot_of ts ≡ negsuc i
      → ingest_ring f r ts sys ≡ none
  unfolding ingest_ring store_at
  ingest_ring-neg r ts i sys e = rw (e, ingest_ring) refl

-- On a ring of 2880 slots Ingest panics exactly at the times whose slot index is negative: the
-- time is negative, and its distance from 0, in steps of 30 seconds, is no multiple of 2880.
pub ingest_ring-panics_iff :
    {F : Type 0} (f : Floats F) (r : NodeRing F) (ts : ℤ) (sys : SysMetrics F)
    → length r.slots ≡ ring_slots
    → (ingest_ring f r ts sys ≡ none) ↔ (neg_part ts / 30 % 2880 ≢ 0)
ingest_ring-panics_iff f r (pos n) sys size = (
  λ h. cc (ingest_ring-pos f r (pos n) (n / 30 % 2880) sys (slot_of-pos n) (omega arith), h),
  λ h. absurd (h refl),
)
ingest_ring-panics_iff f r (negsuc n) sys size = elim (ℕ_discrete (suc n / 30 % 2880) 0) [
  | yes e ↦ (
    λ h. cc (ingest_ring-pos f r (negsuc n) 0 sys (slot_of-zero n e) (omega arith), h),
    λ h. absurd (h e),
  )
  | no e ↦ (λ _. e, λ _. ingest_ring-neg f r (negsuc n) _ sys (slot_of-negsuc n e))
]

latest-eq :
    {F : Type 0} (m : Metrics F) (id : String) (r : NodeRing F) (i : ℕ) (s : Sample F)
    → lookup id m ≡ some r
    → eqb_ℤ r.last_ts (pos 0) ≡ false
    → slot_of r.last_ts ≡ pos i
    → get_elem? r.slots i ≡ some s
    → latest id m ≡ some (some s)
unfolding latest load_at
latest-eq m id r i s e n o g = rw (e, latest) (rw n (rw (o, load_at) (rw g refl)))

-- At a positive time Ingest does not panic, the ring keeps its 2880 slots, and Latest then answers
-- with the sample that was stored.
pub latest-ingest :
    {F : Type 0} (f : Floats F) (m : Metrics F) (id : String) (n : ℕ) (sys : SysMetrics F)
    → 0 < n
    → length (ring_or_new f (lookup id m)).slots ≡ ring_slots
    → (m' : Metrics F) × (ingest f id (pos n) sys m ≡ some m')
      × (length (ring_or_new f (lookup id m')).slots ≡ ring_slots)
      × (latest id m' ≡ some (some (sample_of f (ring_or_new f (lookup id m)) (pos n) sys)))
unfolding ingest
latest-ingest {F} f m id n sys h size =
    let fits : n / 30 % 2880 < length r.slots = omega (arith, size) in
    (
      insert id r' m,
      rw (ingest_ring-pos f r (pos n) (n / 30 % 2880) sys (slot_of-pos n) fits, ingest) refl,
      rw (lookup-insert_self id r' m)
          (length-set r.slots (n / 30 % 2880) (sample_of f r (pos n) sys) ∙ size),
      latest-eq (insert id r' m) id r' (n / 30 % 2880) (sample_of f r (pos n) sys)
          (lookup-insert_self id r' m) (ground arith) (slot_of-pos n)
          (get_elem?-set_self r.slots (n / 30 % 2880) (sample_of f r (pos n) sys) fits),
    )
  where
    r : NodeRing F
    r = ring_or_new f (lookup id m)

    r' : NodeRing F
    r' = record {
      slots = set r.slots (n / 30 % 2880) (sample_of f r (pos n) sys);
      last_ts = pos n;
      prev_rx = sys.net_rx;
      prev_tx = sys.net_tx;
      prev_ts = pos n;
    }
