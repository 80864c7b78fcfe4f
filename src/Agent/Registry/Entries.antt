-- ===== src/Agent/Registry/Entries.antt =====
-- What AddSvc registers, lookupSvc finds: internal/agent/svcreg.go.
use light_pn.Prelude.{
  String, ◌≡◌, refl, sym, ap, ◌∙◌, true, false, not, ◌&&◌, List, [], ◌∷◌, ◌++◌, Option, none, some,
  Result, ok, err, arith, find_first, ◌is◌, is_refl, Bool-cases, inl, inr,
}
use light_pn.Proto.{Bytes}
use light_pn.Agent.Registry.{
  SvcEntry, RegError, RegLib, alias_re, unit_re, insert_entry, sort_entries, has_alias,
  load_svc_reg, written, save_svc_reg, clash, add_to, add_loaded, add_svc, lookup_svc,
}

find-insert_entry :
    (a : String) (x : SvcEntry) (es : List SvcEntry)
    → x.alias is a ≡ false
    → find_first (has_alias a) (insert_entry x es) ≡ find_first (has_alias a) es
unfolding insert_entry
find-insert_entry a x [] h = ground (arith, h)
find-insert_entry a x (y ∷ ys) h = ground (arith, h, find-insert_entry a x ys h)

find-sort_entries :
    (e : SvcEntry) (es : List SvcEntry)
    → clash e.alias e.unit es ≡ none
    → find_first (has_alias e.alias) (sort_entries (es ++ e ∷ [])) ≡ some e
unfolding sort_entries insert_entry clash
find-sort_entries e [] h = ground (arith, is_refl e.alias)
find-sort_entries e (x ∷ xs) h =
    find-insert_entry e.alias x (sort_entries (xs ++ e ∷ [])) (ground (arith, h))
    ∙ find-sort_entries e xs (ground (arith, h))

module _ (lib : RegLib) where
  -- json.Unmarshal undoes json.MarshalIndent at registries
  abbrev pub Reads : Type 0
  Reads =
      (reg : List SvcEntry) (b : Bytes)
      → lib.json.marshal reg ≡ some b
      → lib.json.unmarshal b ≡ some reg

  written-ok :
      (m : Option Bytes) (file file' : Option Bytes)
      → written lib m file ≡ (ok tt, file')
      → (b : Bytes) × (m ≡ some b) × (file' ≡ some b)
  written-ok none file file' h = cc (ap (λ p. p.0) h)
  written-ok (some b) file file' h = elim (Bool-cases (lib.writes b)) [
    | inl w ↦ (b, refl, sym (ap (λ p. p.1) (rw (w, written) at h)))
    | inr w ↦ cc (ap (λ p. p.0) (rw (w, written) at h))
  ]

  lookup-found :
      (a : String) (b : Bytes) (reg : List SvcEntry) (e : SvcEntry)
      → lib.json.unmarshal b ≡ some reg
      → find_first (has_alias a) reg ≡ some e
      → lookup_svc lib a (some b) ≡ ok e.unit
  unfolding lookup_svc
  lookup-found a b reg e u f = rw (u, lookup_svc) (rw f refl)

  add_to-found :
      (e : SvcEntry) (file file' : Option Bytes) (reg : List SvcEntry) (c : Option RegError)
      → Reads
      → clash e.alias e.unit reg ≡ c
      → add_to lib e file reg c ≡ (ok tt, file')
      → lookup_svc lib e.alias file' ≡ ok e.unit
  unfolding save_svc_reg
  add_to-found e file file' reg (some x) reads n h = cc (ap (λ p. p.0) h)
  add_to-found e file file' reg none reads n h =
      let (b, marshalled, is_b) =
        written-ok (lib.json.marshal (sort_entries (reg ++ e ∷ []))) file file' h in
      ap (lookup_svc lib e.alias) is_b
      ∙ lookup-found e.alias b (sort_entries (reg ++ e ∷ [])) e
          (reads (sort_entries (reg ++ e ∷ [])) b marshalled) (find-sort_entries e reg n)

  add_loaded-found :
      (e : SvcEntry) (file file' : Option Bytes) (r : Result RegError (List SvcEntry))
      → Reads
      → add_loaded lib e file r ≡ (ok tt, file')
      → lookup_svc lib e.alias file' ≡ ok e.unit
  add_loaded-found e file file' (err x) reads h = cc (ap (λ p. p.0) h)
  add_loaded-found e file file' (ok reg) reads h =
      add_to-found e file file' reg (clash e.alias e.unit reg) reads refl h

-- An entry that AddSvc registers has an alias and a unit of the allowed forms and an absolute or
-- empty configuration path, and lookupSvc then gives its unit; if the JSON library reads every
-- registry back that it writes.
pub lookup_svc-add_svc :
    (lib : RegLib) (e : SvcEntry) (file file' : Option Bytes)
    → Reads lib
    → add_svc lib e file ≡ (ok tt, file')
    → (lib.matches alias_re e.alias ≡ true)
      × (lib.matches unit_re e.unit ≡ true)
      × (not (e.conf is "") && not (lib.is_abs e.conf) ≡ false)
      × (lookup_svc lib e.alias file' ≡ ok e.unit)
unfolding add_svc
lookup_svc-add_svc lib e file file' reads h = elim (Bool-cases (lib.matches alias_re e.alias)) [
  | inr a ↦ cc (ap (λ p. p.0) (rw (a, add_svc) at h))
  | inl a ↦ elim (Bool-cases (lib.matches unit_re e.unit)) [
    | inr u ↦ cc (ap (λ p. p.0) (rw (a, u, add_svc) at h))
    | inl u ↦ elim (Bool-cases (not (e.conf is "") && not (lib.is_abs e.conf))) [
      | inl c ↦ cc (ap (λ p. p.0) (rw c at (rw (a, u, add_svc) at h)))
      | inr c ↦ (
        a,
        u,
        c,
        add_loaded-found lib e file file' (load_svc_reg lib file) reads
            (rw c at (rw (a, u, add_svc) at h)),
      )
    ]
  ]
]
