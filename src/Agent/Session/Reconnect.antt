-- ===== src/Agent/Session/Reconnect.antt =====
-- The loop of Run, which opens one session after the other, internal/agent/agent.go.
use Prim.Native.String.{◌++◌ as text_append}
use light_pn.Prelude.{
  ℕ, ◌*◌, ℤ, String, Result, ok, err, List, [], ◌∷◌, Option, none, some, ltb, leb, if◌then◌else◌,
}
use light_pn.Agent.Session.{End, kicked, failed}

-- const stableSession
abbrev pub stable_session : ℕ
stable_session = 60_000_000_000

-- the wait before the next attempt, before its jitter, after a session of this length
unfoldable pub backoff_before : ℕ → ℕ → ℕ
backoff_before duration backoff = if leb stable_session duration then 1_000_000_000 else backoff

-- backoff *= 2, at most a minute
unfoldable pub backoff_after : ℕ → ℕ
backoff_after b = if ltb 60_000_000_000 (b * 2) then 60_000_000_000 else b * 2

-- The loop of Run over the sessions, each with its error, its length and the random number that is
-- drawn after it: the waits between them, and the error that Run returned, if it did. The wait is
-- `jittered backoff r`, the float64 product of the backoff and of 0.8 + 0.4 r, cut to nanoseconds.
module _ {R : Type 0} (jittered : ℕ → R → ℕ) where
  unfoldable pub run_sessions : ℕ → List (Option End × ℕ × R) → List ℕ × Option End
  unfolding backoff_before backoff_after
  run_sessions backoff [] = ([], none)
  run_sessions backoff ((some kicked, d, r) ∷ ss) = ([], some kicked)
  run_sessions backoff ((some (failed _), d, r) ∷ ss) =
      let base = backoff_before d backoff in
      let rest = run_sessions (backoff_after base) ss in (jittered base r ∷ rest.0, rest.1)
  run_sessions backoff ((none, d, r) ∷ ss) =
      let base = backoff_before d backoff in
      let rest = run_sessions (backoff_after base) ss in (jittered base r ∷ rest.0, rest.1)

  -- Run, after Init of the WireGuard manager
  unfoldable pub run : Result String (String × ℤ) → List (Option End × ℕ × R) → List ℕ × Option End
  unfolding run_sessions
  run (err e) ss = ([], some (failed (text_append "wireguard init: " e)))
  run (ok _) ss = run_sessions 1_000_000_000 ss
