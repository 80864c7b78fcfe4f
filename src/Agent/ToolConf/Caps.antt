-- ===== src/Agent/ToolConf/Caps.antt =====
-- One file in collectToolConf: it is cut to fit both caps, internal/agent/toolconf.go.
use light_pn.Prelude.{
  ℕ, ◌+◌, ◌-◌, ◌≤◌, String, ◌≡◌, refl, Bool, true, false, List, [], ◌∷◌, Result, ok, err, ℤ, arith,
  ltb, if◌then◌else◌, length, take, zero, suc, Bool-cases, inl, inr, ◌⊎◌, pos,
}
use light_pn.Proto.{Bytes, ConfFile}
use light_pn.Agent.ToolConf.{
  conf_file_cap, conf_total_cap, Candidate, FileInfo, FileSystem, cut_to, cut_data, Visit, skips,
  reports, reads, entry_of, unread, read_entry, visit_stat,
}

abbrev pub total_size : List ConfFile → ℕ
total_size [] = 0
total_size (f ∷ fs) = length f.content + total_size fs

length-take : (n : ℕ) (xs : Bytes) → (length (take n xs) ≤ n) × (length (take n xs) ≤ length xs)
length-take zero xs = omega arith
length-take (suc n) [] = (omega arith, omega arith)
length-take (suc n) (x ∷ xs) = let (a, b) = length-take n xs in (omega (arith, a), omega (arith, b))

-- the cuts keep within both caps
cut_to-le :
    (file_cap total_cap total : ℕ) (bytes : Bytes)
    → total ≤ total_cap
    → (length (cut_to file_cap total_cap total bytes).0 ≤ file_cap)
      × (total + length (cut_to file_cap total_cap total bytes).0 ≤ total_cap)
unfolding cut_to
cut_to-le file_cap total_cap total bytes le =
    let (a, _) = length-take file_cap bytes in
    let (b, c) = length-take (total_cap - total) (take file_cap bytes) in
    elim (Bool-cases (ltb total_cap (total + length (take file_cap bytes)))) [
      | inl h ↦ rw (cut_to, h) (omega (arith, a, c), omega (arith, b, le))
      | inr h ↦ rw (cut_to, h) (a, ground (arith, h))
    ]

cut_data-le :
    (total : ℕ) (bytes : Bytes)
    → total ≤ conf_total_cap
    → (length (cut_data total bytes).0 ≤ conf_file_cap)
      × (total + length (cut_data total bytes).0 ≤ conf_total_cap)
unfolding cut_data
cut_data-le total bytes le = cut_to-le conf_file_cap conf_total_cap total bytes le

-- one list of bytes begins another
abbrev pub IsPrefix : Bytes → Bytes → Type 0
IsPrefix [] ys = Unit
IsPrefix (x ∷ xs) [] = ⊥
IsPrefix (x ∷ xs) (y ∷ ys) = (x ≡ y) × IsPrefix xs ys

take-IsPrefix : (n : ℕ) (xs ys : Bytes) → IsPrefix xs ys → IsPrefix (take n xs) ys
take-IsPrefix zero xs ys h = tt
take-IsPrefix (suc n) [] ys h = tt
take-IsPrefix (suc n) (x ∷ xs) [] h = absurd h
take-IsPrefix (suc n) (x ∷ xs) (y ∷ ys) h = (h.0, take-IsPrefix n xs ys h.1)

IsPrefix-self : (xs : Bytes) → IsPrefix xs xs
IsPrefix-self [] = tt
IsPrefix-self (x ∷ xs) = (refl, IsPrefix-self xs)

cut_data-IsPrefix : (total : ℕ) (bytes : Bytes) → IsPrefix (cut_data total bytes).0 bytes
unfolding cut_data cut_to
cut_data-IsPrefix total bytes = cut conf_file_cap conf_total_cap
  where
    cut : (a b : ℕ) → IsPrefix (cut_to a b total bytes).0 bytes
    cut a b =
        let one = take-IsPrefix a bytes bytes (IsPrefix-self bytes) in
        elim (Bool-cases (ltb b (total + length (take a bytes)))) [
          | inl h ↦ rw (cut_to, h) (take-IsPrefix (b - total) (take a bytes) bytes one)
          | inr h ↦ rw (cut_to, h) one
        ]

module _ (fs : FileSystem) where
  -- nothing, or the beginning of what the file at the entry's path holds
  abbrev pub IsPart : ConfFile → Type 0
  IsPart f = (f.content ≡ []) ⊎ ((b : Bytes) × (fs.read_file f.path ≡ ok b) × IsPrefix f.content b)

  -- an entry of the candidate that fits after `total` bytes
  pub record Fits (c : Candidate) (total : ℕ) (f : ConfFile) : Type 0 where
    pub at_path : f.path ≡ c.path
    pub part : IsPart f
    pub small : length f.content ≤ conf_file_cap
    pub fits : total + length f.content ≤ conf_total_cap

  abbrev pub FitsVisit : Candidate → ℕ → Visit → Type 0
  FitsVisit c total skips = Unit
  FitsVisit c total (reports f) = Fits c total f × (f.content ≡ [])
  FitsVisit c total (reads f) = Fits c total f

  empty-Fits :
      (c : Candidate) (total : ℕ) (m s : ℤ) (msg : String)
      → total ≤ conf_total_cap
      → Fits c total (entry_of c m s ([], false) msg)
  empty-Fits c total m s msg le = record {
    at_path = refl;
    part = inl refl;
    small = omega arith;
    fits = omega (arith, le);
  }

  unread-Fits :
      (c : Candidate) (total : ℕ) (msg : String)
      → total ≤ conf_total_cap
      → FitsVisit c total (unread c msg)
  unread-Fits c total msg le = go c.registered
    where
      f : ConfFile
      f = entry_of c (pos 0) (pos 0) ([], false) msg

      go : (b : Bool) → FitsVisit c total (if b then reports f else skips)
      go true = (empty-Fits c total (pos 0) (pos 0) msg le, refl)
      go false = tt

  read_entry-Fits :
      (c : Candidate) (total : ℕ) (fi : FileInfo) (r : Result String Bytes)
      → fs.read_file c.path ≡ r
      → total ≤ conf_total_cap
      → Fits c total (read_entry c total fi r)
  read_entry-Fits c total fi (err msg) e le = empty-Fits c total fi.mod_time fi.size msg le
  read_entry-Fits c total fi (ok b) e le = record {
    at_path = refl;
    part = inr (b, e, cut_data-IsPrefix total b);
    small = (cut_data-le total b le).0;
    fits = (cut_data-le total b le).1;
  }

  pub visit_stat-Fits :
      (c : Candidate) (total : ℕ) (r : Result String FileInfo)
      → total ≤ conf_total_cap
      → FitsVisit c total (visit_stat fs c total r)
  visit_stat-Fits c total (err msg) le = unread-Fits c total msg le
  visit_stat-Fits c total (ok fi) le = elim (Bool-cases fi.is_dir) [
    | inl h ↦ rw h (unread-Fits c total _ le)
    | inr h ↦ rw h (read_entry-Fits c total fi (fs.read_file c.path) refl le)
  ]
