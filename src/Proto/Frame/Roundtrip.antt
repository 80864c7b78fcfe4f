-- ===== src/Proto/Frame/Roundtrip.antt =====
-- What WriteFrame sends, ReadFrame reads back.
use light_pn.Prelude.{
  ℕ, zero, suc, ◌≤◌, ◌<◌, ◌^◌, ◌≡◌, refl, ap, sym, ◌∙◌, false, List, [], ◌∷◌, ◌++◌, some, Result,
  ok, arith, ltb, ◌==◌, ◌||◌, length, All, take-append, drop-append, length-append,
}
use mathlib.Core.List.{append_assoc, append-nil}
use light_pn.Prelude.Io.{and_then-ok}
use light_pn.Proto.{Bytes, Envelope, Json, max_frame, FrameError}
use light_pn.Proto.Frame.{
  put_uint32, get_uint32, Writer, write, write_frame, check_length, check_size, encode, read_full,
  decode, read_frame, read_frames, write_frames, collect, sent,
}

pub get-put_uint32 : (n : ℕ) → n < 2 ^ 32 → get_uint32 (put_uint32 n) ≡ n
unfolding get_uint32 put_uint32
get-put_uint32 n h = omega arith

pub length-put_uint32 : (n : ℕ) → length (put_uint32 n) ≡ 4
unfolding put_uint32
length-put_uint32 n = refl

pub read_full-append : (n : ℕ) (b r : Bytes) → length b ≡ n → read_full n (b ++ r) ≡ (ok b, r)
unfolding read_full
read_full-append n b r e = ground (arith, length-append b r, take-append b r, drop-append b r)

-- A frame is its header and its body.
abbrev pub frame : Bytes → Bytes
frame body = put_uint32 (length body) ++ body

fits : (n : ℕ) → 0 < n → n ≤ max_frame → (n == 0 || ltb max_frame n) ≡ false
fits n p q = ground arith

pub read_frame-append :
    (j : Json Envelope) (body r : Bytes)
    → 0 < length body
    → length body ≤ max_frame
    → read_frame j (frame body ++ r) ≡ decode j body r
unfolding read_frame decode
read_frame-append j body r p q = rw (append_assoc (put_uint32 (length body)) body r) (
    rw
      (
        read_frame,
        read_full-append 4 (put_uint32 (length body)) (body ++ r) (length-put_uint32 (length body)),
      )
      (rw (get-put_uint32 (length body) (omega arith), check_length, fits (length body) p q)
        (rw (read_full-append (length body) body r refl) refl)))

decode-ok :
    (j : Json Envelope) (env : Envelope) (body r : Bytes)
    → j.unmarshal body ≡ some env
    → decode j body r ≡ (ok env, r)
unfolding decode
decode-ok j env body r e = rw (e, decode)

write-ok :
    (b : Bytes) (w w' : Writer) (u : Unit) → write b w ≡ (ok u, w') → w'.chunks ≡ w.chunks ++ b ∷ []
unfolding write
write-ok b w w' u h = ground arith

encode-ok :
    (j : Json Envelope) (env : Envelope) (w w' : Writer) (body : Bytes)
    → encode j env w ≡ (ok body, w')
    → (j.marshal env ≡ some body) × (w' ≡ w)
unfolding encode
encode-ok j env w w' body h = (ground arith, ground arith)

check_size-ok :
    (body : Bytes) (w w' : Writer) (u : Unit)
    → check_size body w ≡ (ok u, w')
    → (length body ≤ max_frame) × (w' ≡ w)
unfolding check_size
check_size-ok body w w' u h = (ground arith, ground arith)

-- A frame that is written in full is its two chunks.
pub write_frame-ok :
    (j : Json Envelope) (env : Envelope) (w w' : Writer) (u : Unit)
    → write_frame j env w ≡ (ok u, w')
    → (body : Bytes) × (j.marshal env ≡ some body)
      × (length body ≤ max_frame)
      × (w'.chunks ≡ (w.chunks ++ put_uint32 (length body) ∷ []) ++ body ∷ [])
unfolding write_frame
write_frame-ok j env w w' u h =
    let (body, w₁, e₁, h₁) = and_then-ok (encode j env w) _ h in
    let (u₂, w₂, e₂, h₂) = and_then-ok (check_size body w₁) _ h₁ in
    let (u₃, w₃, e₃, h₃) = and_then-ok (write (put_uint32 (length body)) w₂) _ h₂ in
    let (marshalled, same) = encode-ok j env w w₁ body e₁ in
    let (small, kept) = check_size-ok body w₁ w₂ u₂ e₂ in
    let first = write-ok _ w₂ w₃ u₃ e₃ in
    let second = write-ok body w₃ w' u h₃ in (body, marshalled, small, cc)

pub sent-append : (xs ys : List Bytes) → sent (xs ++ ys) ≡ sent xs ++ sent ys
sent-append [] ys = refl
sent-append (x ∷ xs) ys = rw (sent-append xs ys) (sym (append_assoc x (sent xs) (sent ys)))

-- json.Unmarshal undoes json.Marshal at this envelope, and no JSON text is empty.
abbrev pub RoundTrips : Json Envelope → Envelope → Type 0
RoundTrips j env =
    (body : Bytes) → j.marshal env ≡ some body → (0 < length body) × (j.unmarshal body ≡ some env)

-- What one frame adds to the bytes that were sent.
sent-frame :
    (j : Json Envelope) (env : Envelope) (w w' : Writer) (u : Unit)
    → RoundTrips j env
    → write_frame j env w ≡ (ok u, w')
    → (body : Bytes) × (sent w'.chunks ≡ sent w.chunks ++ frame body)
      × ((rest : Bytes) → read_frame j (frame body ++ rest) ≡ (ok env, rest))
sent-frame j env w w' u law h =
    let (body, marshalled, small, chunks) = write_frame-ok j env w w' u h in
    let (filled, parsed) = law body marshalled in
    (
      body,
      rw chunks (simp (sent-append, append_assoc, append-nil)),
      λ rest. read_frame-append j body rest filled small ∙ decode-ok j env body rest parsed,
    )

read_frames-nil : (j : Json Envelope) (k : ℕ) → read_frames j k [] ≡ []
unfolding read_frames
read_frames-nil j zero = refl
read_frames-nil j (suc k) = refl

read_frames-cons :
    (j : Json Envelope) (k : ℕ) (env : Envelope) (r r' : Bytes)
    → read_frame j r ≡ (ok env, r')
    → read_frames j (suc k) r ≡ env ∷ read_frames j k r'
unfolding read_frames
read_frames-cons j k env r r' e = ap (λ p. collect p (read_frames j k)) e

frames_roundtrip :
    (j : Json Envelope) (envs : List Envelope) (w w' : Writer) (u : Unit)
    → All (RoundTrips j) envs
    → write_frames j envs w ≡ (ok u, w')
    → (x : Bytes) × (sent w'.chunks ≡ sent w.chunks ++ x)
      × ((k : ℕ) → length envs ≤ k → read_frames j k x ≡ envs)
unfolding write_frames
frames_roundtrip j [] w w' u laws h = (
  [],
  ap (λ (v : Result FrameError Unit × Writer). sent v.1.chunks) (sym h) ∙ sym (append-nil _),
  λ k _. read_frames-nil j k,
)
frames_roundtrip j (env ∷ envs) w w' u laws h =
    let (u₁, w₁, e₁, h₁) = and_then-ok (write_frame j env w) _ h in
    let (body, more, first) = sent-frame j env w w₁ u₁ laws.0 e₁ in
    let (x, rest, later) = frames_roundtrip j envs w₁ w' u laws.1 h₁ in
    (
      frame body ++ x,
      rw (rest, more) (append_assoc (sent w.chunks) (frame body) x),
      elim [
        | zero ↦ λ small. absurd (omega arith)
        | suc k ↦
            λ small. read_frames-cons j k env _ x (first x) ∙ ap (◌∷◌ env) (later k (omega arith))
      ],
    )

-- Frames that were all written to a fresh connection are read back, one by one and in order, and
-- the reader then stops, if the JSON library parses each envelope's text back and writes no empty
-- text.
pub read_frames-write_frames :
    (j : Json Envelope) (envs : List Envelope) (n : ℕ) (w : Writer) (u : Unit) (k : ℕ)
    → All (RoundTrips j) envs
    → write_frames j envs (record { chunks = []; accepts = n }) ≡ (ok u, w)
    → length envs ≤ k
    → read_frames j k (sent w.chunks) ≡ envs
read_frames-write_frames j envs n w u k laws h enough =
    let (x, e, back) = frames_roundtrip j envs _ w u laws h in rw e (back k enough)
