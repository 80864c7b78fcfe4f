-- ===== src/Agent/SvcCmd/Respelled.antt =====
-- The replay cache of openSvcCmd is keyed by the text of the nonce, not by its bytes.
use light_pn.Prelude.{
  ℕ, String, ◌≡◌, ◌≢◌, refl, sym, ap, ◌∙◌, false, [], ◌∷◌, Option, none, some, Result, ok, err,
  arith, ℤ, is_iff, Bool-cases, inl, inr,
}
use light_pn.Prelude.Map.{Map, lookup, lookup-insert}
use light_pn.Proto.{Bytes, SvcActionData}
use light_pn.Agent.SvcCmd.{
  Crypto, KeyFile, SvcCmd, SvcError, key_of, with_key, unseal, is_stale, prune_seen, unless_seen,
  accept, open_svc_cmd,
}

lookup-prune_seen :
    (k : String) (now : ℕ) (m : Map ℤ) → lookup k m ≡ none → lookup k (prune_seen now m) ≡ none
unfolding lookup prune_seen
lookup-prune_seen k now [] e = refl
lookup-prune_seen k now ((iv, ts) ∷ m) e = ground (arith, e, lookup-prune_seen k now m)

-- an accepted command, and what it leaves in the cache for another text
accept-other :
    (nonce k : String) (now : ℕ) (r : Result SvcError SvcCmd) (cmd : SvcCmd) (seen : Map ℤ)
    → (accept nonce now r seen).0 ≡ ok cmd
    → k ≢ nonce
    → lookup k seen ≡ none
    → (r ≡ ok cmd) × (is_stale cmd.ts now ≡ false) × (lookup k (accept nonce now r seen).1 ≡ none)
unfolding accept
accept-other nonce k now (err e) cmd seen h n free = cc
accept-other nonce k now (ok x) cmd seen h n free = elim (Bool-cases (is_stale x.ts now)) [
  | inl stale ↦ cc (rw (stale, accept) at h)
  | inr fresh ↦
      rw (fresh, accept)
        (taken (lookup nonce (prune_seen now seen)) fresh (rw (fresh, accept) at h))
]
  where
    taken :
        (o : Option ℤ)
        → is_stale x.ts now ≡ false
        → (unless_seen nonce x (prune_seen now seen) o).0 ≡ ok cmd
        → (◌≡◌ {A = Result SvcError SvcCmd} (ok x) (ok cmd))
          × (is_stale cmd.ts now ≡ false)
          × (lookup k (unless_seen nonce x (prune_seen now seen) o).1 ≡ none)
    taken (some t) fresh h = cc h
    taken none fresh h =
        let is_cmd : x ≡ cmd = cc h in
        (
          h,
          ap (λ (y : SvcCmd). is_stale y.ts now) (sym is_cmd) ∙ fresh,
          ground (
            arith,
            lookup-insert k nonce x.ts (prune_seen now seen),
            is_iff nonce k,
            n,
            lookup-prune_seen k now seen free,
          ),
        )

accept-fresh :
    (nonce : String) (now : ℕ) (cmd : SvcCmd) (seen : Map ℤ)
    → is_stale cmd.ts now ≡ false
    → lookup nonce seen ≡ none
    → (accept nonce now (ok cmd) seen).0 ≡ ok cmd
unfolding accept
accept-fresh nonce now cmd seen fresh free =
    rw (fresh, accept) (rw (lookup-prune_seen nonce now seen free, unless_seen) refl)

respelled :
    (c : Crypto) (file : KeyFile) (nonce nonce' ct : String)
    → c.decode nonce' ≡ c.decode nonce
    → unseal c file (record { nonce = nonce'; ct = ct })
      ≡ unseal c file (record { nonce = nonce; ct = ct })
unfolding unseal
respelled c file nonce nonce' ct same = with_key-same (key_of c file)
  where
    with_key-same :
        (k : Result SvcError Bytes)
        → with_key c (record { nonce = nonce'; ct = ct }) k
          ≡ with_key c (record { nonce = nonce; ct = ct }) k
    with_key-same (err e) = refl
    with_key-same (ok key) = rw (same, with_key) refl

-- A command that was just accepted is accepted once more when its nonce is sent in another text
-- that decodes to the same bytes and is not in the cache.
pub open_svc_cmd-respelled :
    (c : Crypto) (file : KeyFile) (nonce nonce' ct : String) (now : ℕ) (seen : Map ℤ) (cmd : SvcCmd)
    → c.decode nonce' ≡ c.decode nonce
    → nonce' ≢ nonce
    → lookup nonce' seen ≡ none
    → (open_svc_cmd c file (record { nonce = nonce; ct = ct }) now seen).0 ≡ ok cmd
    → (open_svc_cmd c file
        (record { nonce = nonce'; ct = ct })
        now
        (open_svc_cmd c file (record { nonce = nonce; ct = ct }) now seen).1).0
      ≡ ok cmd
unfolding open_svc_cmd
open_svc_cmd-respelled c file nonce nonce' ct now seen cmd same differs free h =
    let d : SvcActionData = record { nonce = nonce; ct = ct } in
    let d' : SvcActionData = record { nonce = nonce'; ct = ct } in
    let (opens, fresh, left) =
      accept-other nonce nonce' now (unseal c file d) cmd seen h differs free in
    let opens' : unseal c file d' ≡ ok cmd = respelled c file nonce nonce' ct same ∙ opens in
    ap (λ r. (accept nonce' now r (accept nonce now (unseal c file d) seen).1).0) opens'
    ∙ accept-fresh nonce' now cmd (accept nonce now (unseal c file d) seen).1 fresh left
