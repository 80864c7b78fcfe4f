-- ===== src/Agent/ToolConf/Bounded.antt =====
-- What collectToolConf of internal/agent/toolconf.go can collect at most.
use light_pn.Prelude.{
  ℕ, ◌+◌, ◌≤◌, String, ◌≡◌, ◌⊎◌, refl, sym, ap, subst, Bool, true, false, List, [], ◌∷◌, Option,
  Result, ℤ, arith, leb, ◌is◌, is_refl, is_sym, has, length, All, All-map, Bool-cases, inl, inr,
}
use light_pn.Proto.{ConfFile, WgPeerStatus}
use light_pn.Store.Valid.{Distinct}
use light_pn.Agent.Registry.{SvcEntry, RegError}
use light_pn.Agent.ToolConf.{
  conf_file_cap, conf_total_cap, Candidate, FileSystem, candidates, Visit, skips, reports, reads,
  visit, scan_files, collect_tool_conf,
}
use light_pn.Agent.ToolConf.Caps.{total_size, IsPart, Fits, FitsVisit, visit_stat-Fits}

abbrev pub same_path : String → Candidate → Bool
same_path p c = c.path is p

-- a path that the list does not have
abbrev Misses : List String → String → Type 0
Misses seen p = has (λ q. q is p) seen ≡ false

abbrev pub path_of : ConfFile → String
path_of f = f.path

module _ (fs : FileSystem) where
  abbrev IsEntry : List Candidate → List String → ConfFile → Type 0
  IsEntry cs seen f =
      (length f.content ≤ conf_file_cap)
      × IsPart fs f
      × (has (same_path f.path) cs ≡ true)
      × Misses seen f.path

  record Bounded (cs : List Candidate) (total : ℕ) (seen : List String) (files : List ConfFile)
      : Type 0 where
    each : All (IsEntry cs seen) files
    sum : total + total_size files ≤ conf_total_cap
    distinct : Distinct path_of files

  Misses-has :
      (p : String) (files : List ConfFile)
      → All (λ f. (p is f.path) ≡ false) files
      → has (λ f. f.path is p) files ≡ false
  Misses-has p [] h = refl
  Misses-has p (f ∷ rest) h = ground (arith, h.0, is_sym p f.path, Misses-has p rest h.1)

  visit-cases :
      (c : Candidate) (total : ℕ) (seen : List String)
      → total ≤ conf_total_cap
      → (visit fs c total seen ≡ skips)
        ⊎ (Misses seen c.path × FitsVisit fs c total (visit fs c total seen))
  unfolding visit
  visit-cases c total seen le = elim (Bool-cases (has (λ p. p is c.path) seen)) [
    | inl h ↦ inl (rw (visit, h) refl)
    | inr h ↦ inr (h, rw (visit, h) (visit_stat-Fits fs c total (fs.stat c.path) le))
  ]

  -- what later candidates add, and what is there before
  later :
      (c : Candidate) (cs : List Candidate) (seen : List String) (f : ConfFile)
      → IsEntry cs (c.path ∷ seen) f
      → IsEntry (c ∷ cs) seen f × ((c.path is f.path) ≡ false)
  later c cs seen f (small, part, among, new) = ground (arith, small, part, among, new)

  wider :
      (c : Candidate) (cs : List Candidate) (seen : List String) (f : ConfFile)
      → IsEntry cs seen f
      → IsEntry (c ∷ cs) seen f
  wider c cs seen f (small, part, among, new) = ground (arith, small, part, among, new)

  cons-Bounded :
      (c : Candidate) (cs : List Candidate) (total : ℕ) (seen : List String) (f : ConfFile)
      (rest : List ConfFile)
      → Misses seen c.path
      → Fits fs c total f
      → Bounded cs (total + length f.content) (c.path ∷ seen) rest
      → Bounded (c ∷ cs) total seen (f ∷ rest)
  cons-Bounded c cs total seen f rest new fit b =
      let here = subst (λ p. (p is f.path) ≡ true) fit.at_path (is_refl f.path) in
      record {
        each = (
          (fit.small, fit.part, ground (arith, here), subst (Misses seen) (sym fit.at_path) new),
          All-map rest (λ g e. (later c cs seen g e).0) b.each,
        );
        sum = omega (arith, b.sum);
        distinct = (
          Misses-has f.path rest (
              All-map rest
                (λ g e.
                  subst (λ p. (p is g.path) ≡ false) (sym fit.at_path) (later c cs seen g e).1)
                b.each),
          b.distinct,
        );
      }

  empty-Bounded :
      (cs : List Candidate) (total : ℕ) (seen : List String)
      → total ≤ conf_total_cap
      → Bounded cs total seen []
  empty-Bounded cs total seen le = record { each = tt; sum = omega (arith, le); distinct = tt }

  -- one turn of the loop, from what holds of the later ones
  step-Bounded :
      (c : Candidate) (cs : List Candidate) (total : ℕ) (seen : List String) (v : Visit)
      → total ≤ conf_total_cap
      → visit fs c total seen ≡ v
      → ((n : ℕ) (ps : List String) → n ≤ conf_total_cap → Bounded cs n ps (scan_files fs cs n ps))
      → Bounded (c ∷ cs) total seen (scan_files fs (c ∷ cs) total seen)
  unfolding scan_files
  step-Bounded c cs total seen skips le e ih =
      let b = ih total seen le in
      rw (e, scan_files)
        (record {
          each = All-map (scan_files fs cs total seen) (λ g. wider c cs seen g) b.each;
          sum = b.sum;
          distinct = b.distinct;
        })
  step-Bounded c cs total seen (reports f) le e ih = elim (visit-cases c total seen le) [
    | inl k ↦ cc (k, e)
    | inr (new, fit) ↦
        let (fits, none_read) = subst (FitsVisit fs c total) e fit in
        rw (e, scan_files)
          (cons-Bounded c cs total seen f _ new fits (
            subst (λ n. Bounded cs n (c.path ∷ seen) (scan_files fs cs total (c.path ∷ seen)))
              (omega (arith, ap length none_read)) (ih total (c.path ∷ seen) le)))
  ]
  step-Bounded c cs total seen (reads f) le e ih = elim (visit-cases c total seen le) [
    | inl k ↦ cc (k, e)
    | inr (new, fit) ↦
        let fits = subst (FitsVisit fs c total) e fit in
        rw (e, scan_files)
          (cons-Bounded c cs total seen f _ new fits (
            rest (total + length f.content) fits.fits
              (leb conf_total_cap (total + length f.content))))
  ]
    where
      rest :
          (n : ℕ)
          → n ≤ conf_total_cap
          → (b : Bool)
          → Bounded cs n
              (c.path ∷ seen)
              (elim b [ true ↦ [] | false ↦ scan_files fs cs n (c.path ∷ seen) ])
      rest n k true = empty-Bounded cs n (c.path ∷ seen) k
      rest n k false = ih n (c.path ∷ seen) k

  scan_files-Bounded :
      (cs : List Candidate) (total : ℕ) (seen : List String)
      → total ≤ conf_total_cap
      → Bounded cs total seen (scan_files fs cs total seen)
  unfolding scan_files
  scan_files-Bounded [] total seen le = empty-Bounded [] total seen le
  scan_files-Bounded (c ∷ cs) total seen le =
      step-Bounded c cs total seen (visit fs c total seen) le refl
        (λ n ps k. scan_files-Bounded cs n ps k)

-- Whatever the file system, the registry and the WireGuard status are: each file that collectToolConf
-- reports has at most 256 KiB of content, which is empty or the beginning of what the file at its path
-- holds; the path is a registered or a well-known one; no path comes twice; and the contents are
-- at most 768 KiB together.
pub collect_tool_conf-bounded :
    (fs : FileSystem) (iface pubkey : String) (port : ℤ) (peers : Option (List WgPeerStatus))
    (reg : Result RegError (List SvcEntry))
    → let files = (collect_tool_conf fs iface pubkey port peers reg).files in
      All
        (λ f.
          (length f.content ≤ conf_file_cap)
          × IsPart fs f
          × (has (same_path f.path) (candidates reg) ≡ true))
        files
      × Distinct path_of files
      × (total_size files ≤ conf_total_cap)
unfolding collect_tool_conf
collect_tool_conf-bounded fs iface pubkey port peers reg =
    let b = scan_files-Bounded fs (candidates reg) 0 [] (omega arith) in
    (
      All-map (scan_files fs (candidates reg) 0 [])
          (λ f (small, part, among, _). (small, part, among)) b.each,
      b.distinct,
      omega (arith, b.sum),
    )
