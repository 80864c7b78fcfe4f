-- ===== src/Proto/Frame.antt =====
-- WriteFrame and ReadFrame of internal/proto/proto.go, over byte lists. The writer counts the
-- Write calls that still succeed; the reader is the bytes that are still to come.
pub mod Roundtrip
pub mod Faults
mod Tests
use light_pn.Prelude.{
  ℕ, zero, suc, ◌+◌, ◌-◌, ◌*◌, ◌/◌, ◌%◌, ◌^◌, ◌||◌, Bool, List, [], ◌∷◌, ◌++◌, Option, none, some,
  Result, ok, err, ltb, leb, ◌==◌, length, take, drop, if◌then◌else◌,
}
use light_pn.Prelude.Io.{Io, return, ◌>>=◌, ◌>>◌}
use light_pn.Proto.{Bytes, Envelope, Json, max_frame}
use light_pn.Proto.{
  FrameError, marshal_failed, too_large, invalid_length, short_read, write_failed, bad_json,
}

-- binary.BigEndian.PutUint32(hdr, uint32(n))
unfoldable pub put_uint32 : ℕ → Bytes
put_uint32 n = (n / 2 ^ 24 % 256) ∷ (n / 2 ^ 16 % 256) ∷ (n / 2 ^ 8 % 256) ∷ (n % 256) ∷ []

-- binary.BigEndian.Uint32(hdr)
unfoldable pub get_uint32 : Bytes → ℕ
get_uint32 (a ∷ b ∷ c ∷ d ∷ _) = a * 2 ^ 24 + b * 2 ^ 16 + c * 2 ^ 8 + d
get_uint32 _ = 0

pub record Writer : Type 0 where
  pub chunks : List Bytes
  pub accepts : ℕ

-- w.Write(b): one chunk, or an error of the connection
unfoldable pub write : Bytes → Io FrameError Writer Unit
write b w = elim w.accepts [
  | zero ↦ (err write_failed, w)
  | suc n ↦ (ok tt, record { chunks = w.chunks ++ b ∷ []; accepts = n })
]

-- json.Marshal(env)
unfoldable pub encode : Json Envelope → Envelope → Io FrameError Writer Bytes
encode j env w = elim (j.marshal env) [ none ↦ (err marshal_failed, w) | some body ↦ (ok body, w) ]

unfoldable pub check_size : Bytes → Io FrameError Writer Unit
check_size body w = if ltb max_frame (length body) then (err too_large, w) else (ok tt, w)

unfoldable pub write_frame : Json Envelope → Envelope → Io FrameError Writer Unit
unfolding encode check_size write
write_frame j env = do
  body ← encode j env
  check_size body
  write (put_uint32 (length body))
  write body

-- io.ReadFull(r, buf of n bytes): a short stream is used up
unfoldable pub read_full : ℕ → Io FrameError Bytes Bytes
read_full n r = if leb n (length r) then (ok (take n r), drop n r) else (err short_read, [])

unfoldable pub check_length : ℕ → Io FrameError Bytes Unit
check_length n r = if n == 0 || ltb max_frame n then (err invalid_length, r) else (ok tt, r)

-- json.Unmarshal(body, &env)
unfoldable pub decode : Json Envelope → Bytes → Io FrameError Bytes Envelope
decode j body r = elim (j.unmarshal body) [ none ↦ (err bad_json, r) | some env ↦ (ok env, r) ]

unfoldable pub read_frame : Json Envelope → Io FrameError Bytes Envelope
unfolding read_full check_length decode get_uint32
read_frame j = do
  hdr ← read_full 4
  check_length (get_uint32 hdr)
  body ← read_full (get_uint32 hdr)
  decode j body

abbrev pub collect : Result FrameError Envelope × Bytes → (Bytes → List Envelope) → List Envelope
collect (ok env, r) more = env ∷ more r
collect (err e, r) more = []

-- the read loop of a session: frames up to the first error, `k` at most
unfoldable pub read_frames : Json Envelope → ℕ → Bytes → List Envelope
unfolding read_frame
read_frames j zero r = []
read_frames j (suc k) r = collect (read_frame j r) (λ r'. read_frames j k r')

-- frames written one after another; stops at the first error
unfoldable pub write_frames : Json Envelope → List Envelope → Io FrameError Writer Unit
unfolding write_frame
write_frames j [] = return tt
write_frames j (env ∷ envs) = do write_frame j env; write_frames j envs

-- what the other end receives
abbrev pub sent : List Bytes → Bytes
sent [] = []
sent (c ∷ cs) = c ++ sent cs
