-- ===== src/Agent/SvcCmd/Replay.antt =====
-- What openSvcCmd accepts, and that it accepts nothing twice.
use light_pn.Prelude.{
  ℕ, ◌≤◌, String, ◌≡◌, ◌≢◌, refl, sym, ap, ◌∙◌, ◌⊎◌, inl, inr, true, false, List, [], ◌∷◌, Option,
  none, some, Result, ok, err, arith, ℤ, pos, negsuc, sub_ℕ, ltb_ℤ, ◌is◌, is_iff, Bool-cases,
}
use light_pn.Prelude.Map.{Map, lookup, lookup-insert, lookup-insert_self}
use light_pn.Proto.{SvcActionData}
use light_pn.Agent.SvcCmd.{
  Crypto, KeyFile, SvcCmd, SvcError, unseal, is_stale, prune_seen, unless_seen, accept,
  open_svc_cmd,
}

-- a command of time `ts` under this nonce is in the cache, or its entry is old enough to be pruned
abbrev IsSpent : String → ℤ → ℕ → Map ℤ → Type 0
IsSpent nonce ts now seen = (lookup nonce seen ≡ some ts) ⊎ (ltb_ℤ ts (sub_ℕ now 600) ≡ true)

old_later :
    (ts : ℤ) (now later : ℕ)
    → now ≤ later
    → ltb_ℤ ts (sub_ℕ now 600) ≡ true
    → ltb_ℤ ts (sub_ℕ later 600) ≡ true
old_later (pos n) now later h e = ground arith
old_later (negsuc n) now later h e = ground arith

stale_if_old : (ts : ℤ) (now : ℕ) → ltb_ℤ ts (sub_ℕ now 600) ≡ true → is_stale ts now ≡ true
unfolding is_stale
stale_if_old (pos n) now e = ground arith
stale_if_old (negsuc n) now e = ground arith

IsSpent-prune :
    (nonce : String) (ts : ℤ) (now : ℕ) (seen : Map ℤ)
    → lookup nonce seen ≡ some ts
    → IsSpent nonce ts now (prune_seen now seen)
unfolding prune_seen lookup
IsSpent-prune nonce ts now [] e = cc
IsSpent-prune nonce ts now ((iv, t) ∷ m) e = elim (Bool-cases (ltb_ℤ t (sub_ℕ now 600))) [
  | inl old ↦
      rw (old, prune_seen)
        (pruned (λ other. IsSpent-prune nonce ts now m (ground (arith, other, e))) old)
  | inr young ↦
      rw (young, prune_seen)
        (stays (λ other. IsSpent-prune nonce ts now m (ground (arith, other, e))))
]
  where
    Rest : Type 0
    Rest = iv is nonce ≡ false → IsSpent nonce ts now (prune_seen now m)

    pruned : Rest → ltb_ℤ t (sub_ℕ now 600) ≡ true → IsSpent nonce ts now (prune_seen now m)
    pruned rest old = elim (Bool-cases (iv is nonce)) [
      | inl same ↦
          let is_ts : t ≡ ts = ground (arith, same, e) in
          inr (ap (λ x. ltb_ℤ x (sub_ℕ now 600)) (sym is_ts) ∙ old)
      | inr other ↦ rest other
    ]

    skips :
        iv is nonce ≡ false
        → IsSpent nonce ts now (prune_seen now m)
        → IsSpent nonce ts now ((iv, t) ∷ prune_seen now m)
    skips other (inl found) = inl (ground (arith, other, found))
    skips other (inr old) = inr old

    stays : Rest → IsSpent nonce ts now ((iv, t) ∷ prune_seen now m)
    stays rest = elim (Bool-cases (iv is nonce)) [
      | inl same ↦ inl (ground (arith, same, e))
      | inr other ↦ skips other (rest other)
    ]

IsSpent-accept :
    (nonce iv : String) (ts : ℤ) (now later : ℕ) (r : Result SvcError SvcCmd) (seen : Map ℤ)
    → now ≤ later
    → IsSpent nonce ts now seen
    → IsSpent nonce ts later (accept iv later r seen).1
unfolding accept
IsSpent-accept nonce iv ts now later r seen h (inr old) = inr (old_later ts now later h old)
IsSpent-accept nonce iv ts now later (err e) seen h (inl found) = inl found
IsSpent-accept nonce iv ts now later (ok cmd) seen h (inl found) =
    elim (Bool-cases (is_stale cmd.ts later)) [
      | inl stale ↦ inl (rw (stale, accept) found)
      | inr fresh ↦ elim (IsSpent-prune nonce ts later seen found) [
        | inr old ↦ inr old
        | inl kept ↦
            inl (rw (fresh, accept) (kept_by (lookup iv (prune_seen later seen)) refl kept))
      ]
    ]
  where
    kept_by :
        (o : Option ℤ)
        → lookup iv (prune_seen later seen) ≡ o
        → lookup nonce (prune_seen later seen) ≡ some ts
        → lookup nonce (unless_seen iv cmd (prune_seen later seen) o).1 ≡ some ts
    kept_by (some t) e kept = kept
    kept_by none e kept =
        ground
          (arith, lookup-insert nonce iv cmd.ts (prune_seen later seen), is_iff iv nonce, e, kept)

-- a call: view.key's content, the sealed command and the time
abbrev pub Call : Type 0
Call = KeyFile × SvcActionData × ℕ

-- the replay cache after calls in a row
unfoldable pub serve : Crypto → List Call → Map ℤ → Map ℤ
unfolding open_svc_cmd
serve c [] seen = seen
serve c ((file, d, now) ∷ cs) seen = serve c cs (open_svc_cmd c file d now seen).1

-- the clock does not go back, from `now` over the calls to `later`
abbrev pub InOrder : ℕ → List Call → ℕ → Type 0
InOrder now [] later = now ≤ later
InOrder now ((file, d, t) ∷ cs) later = (now ≤ t) × InOrder t cs later

IsSpent-serve :
    (c : Crypto) (nonce : String) (ts : ℤ) (cs : List Call) (now later : ℕ) (seen : Map ℤ)
    → InOrder now cs later
    → IsSpent nonce ts now seen
    → IsSpent nonce ts later (serve c cs seen)
unfolding serve open_svc_cmd
IsSpent-serve c nonce ts [] now later seen h (inl found) = inl found
IsSpent-serve c nonce ts [] now later seen h (inr old) = inr (old_later ts now later h old)
IsSpent-serve c nonce ts ((file, d, t) ∷ cs) now later seen h spent =
    IsSpent-serve c nonce ts cs t later (accept d.nonce t (unseal c file d) seen).1 h.1
      (IsSpent-accept nonce d.nonce ts now t (unseal c file d) seen h.0 spent)

-- what acceptance says and leaves
pub accept-ok :
    (nonce : String) (now : ℕ) (r : Result SvcError SvcCmd) (cmd : SvcCmd) (seen : Map ℤ)
    → (accept nonce now r seen).0 ≡ ok cmd
    → (r ≡ ok cmd) × IsSpent nonce cmd.ts now (accept nonce now r seen).1
unfolding accept
accept-ok nonce now (err e) cmd seen h = cc
accept-ok nonce now (ok x) cmd seen h = elim (Bool-cases (is_stale x.ts now)) [
  | inl stale ↦ cc (rw (stale, accept) at h)
  | inr fresh ↦
      rw (fresh, accept) (taken (lookup nonce (prune_seen now seen)) (rw (fresh, accept) at h))
]
  where
    taken :
        (o : Option ℤ)
        → (unless_seen nonce x (prune_seen now seen) o).0 ≡ ok cmd
        → (◌≡◌ {A = Result SvcError SvcCmd} (ok x) (ok cmd))
          × IsSpent nonce cmd.ts now (unless_seen nonce x (prune_seen now seen) o).1
    taken (some t) k = cc k
    taken none k =
        let is_cmd : x ≡ cmd = cc k in
        (
          k,
          inl (
              lookup-insert_self nonce x.ts (prune_seen now seen)
              ∙ ap (λ (y : SvcCmd). some y.ts) is_cmd),
        )

replayed_if :
    (nonce : String) (cmd x : SvcCmd) (m : Map ℤ) (t : ℤ)
    → (unless_seen nonce cmd m (some t)).0 ≢ ok x
replayed_if nonce cmd x m t h = cc h

rejects_spent :
    (nonce : String) (now : ℕ) (r : Result SvcError SvcCmd) (cmd x : SvcCmd) (seen : Map ℤ)
    → r ≡ ok cmd
    → IsSpent nonce cmd.ts now seen
    → (accept nonce now r seen).0 ≢ ok x
unfolding accept
rejects_spent nonce now (err e) cmd x seen h spent k = cc k
rejects_spent nonce now (ok y) cmd x seen h spent k = elim (Bool-cases (is_stale y.ts now)) [
  | inl stale ↦ cc (rw (stale, accept) at k)
  | inr fresh ↦ elim (pruned spent) [
    | inl found ↦ cc (rw (found, unless_seen) at (rw (fresh, accept) at k))
    | inr old ↦ cc (
      stale_if_old y.ts now (ap (λ (z : SvcCmd). ltb_ℤ z.ts (sub_ℕ now 600)) is_cmd ∙ old),
      fresh,
    )
  ]
]
  where
    is_cmd : y ≡ cmd
    is_cmd = cc h

    pruned : IsSpent nonce cmd.ts now seen → IsSpent nonce cmd.ts now (prune_seen now seen)
    pruned (inl found) = IsSpent-prune nonce cmd.ts now seen found
    pruned (inr old) = inr old

-- A sealed command that was accepted is never accepted again, whatever commands are served in
-- between and at whatever later time, as long as the clock does not go back and the command is
-- sent in the same spelling under the same view.key.
pub open_svc_cmd-once :
    (c : Crypto) (file : KeyFile) (d : SvcActionData) (now : ℕ) (seen : Map ℤ) (cmd : SvcCmd)
    → (open_svc_cmd c file d now seen).0 ≡ ok cmd
    → (cs : List Call) (later : ℕ) → InOrder now cs later
    → (x : SvcCmd)
    → (open_svc_cmd c file d later (serve c cs (open_svc_cmd c file d now seen).1)).0 ≢ ok x
unfolding open_svc_cmd
open_svc_cmd-once c file d now seen cmd h cs later order x =
    let (opens, spent) = accept-ok d.nonce now (unseal c file d) cmd seen h in
    let seen' = serve c cs (accept d.nonce now (unseal c file d) seen).1 in
    rejects_spent d.nonce later (unseal c file d) cmd x seen' opens (
      IsSpent-serve c d.nonce cmd.ts cs now later (accept d.nonce now (unseal c file d) seen).1
        order spent)
