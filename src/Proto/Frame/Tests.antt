-- ===== src/Proto/Frame/Tests.antt =====
-- Concrete runs of the framing of internal/proto/proto.go, with a JSON library that knows two
-- envelopes.
use light_pn.Prelude.{
  zero, suc, ◌<◌, ◌≤◌, ◌≡◌, refl, subst, [], ◌∷◌, ◌++◌, Option, none, some, ok, err, arith, pos,
  length, if◌then◌else◌, ◌is◌,
}
use light_pn.Proto.{Bytes, Envelope, Json, bad_json, max_frame}
use light_pn.Proto.Kind
use light_pn.Proto.Frame.{put_uint32, Writer, write_frames, read_frame, read_frames, sent}
use light_pn.Proto.Frame.Roundtrip.{RoundTrips, read_frames-write_frames}
use light_pn.Proto.Frame.Faults.{read_frame-bounds, interleaved_frames_rejected}

abbrev ping : Envelope
ping = record { v = pos 1; kind = Kind.heartbeat; id = "ping"; payload = 7 ∷ [] }

abbrev pong : Envelope
pong = record { v = pos 1; kind = Kind.ack; id = "pong"; payload = [] }

abbrev parse : Bytes → Option Envelope
parse (suc zero ∷ []) = some ping
parse (suc (suc zero) ∷ b) = some pong
parse _ = none

abbrev json : Json Envelope
json = record {
  marshal = λ env. some (if env.id is "ping" then 1 ∷ [] else 2 ∷ 3 ∷ []);
  unmarshal = parse;
}

ping-RoundTrips : RoundTrips json ping
ping-RoundTrips body e =
    let b : 1 ∷ [] ≡ body = cc e in
    subst (λ b. (0 < length b) × (json.unmarshal b ≡ some ping)) b (omega arith, refl)

pong-RoundTrips : RoundTrips json pong
pong-RoundTrips body e =
    let b : 2 ∷ 3 ∷ [] ≡ body = cc e in
    subst (λ b. (0 < length b) × (json.unmarshal b ≡ some pong)) b (omega arith, refl)

abbrev written : Writer
written = record {
  chunks = (0 ∷ 0 ∷ 0 ∷ 1 ∷ []) ∷ (1 ∷ []) ∷ (0 ∷ 0 ∷ 0 ∷ 2 ∷ []) ∷ (2 ∷ 3 ∷ []) ∷ [];
  accepts = 1;
}

two_frames :
    write_frames json (ping ∷ pong ∷ []) (record { chunks = []; accepts = 5 }) ≡ (ok tt, written)
unfolding write_frames put_uint32
two_frames = refl

read_frames-write_frames_example : read_frames json 3 (sent written.chunks) ≡ ping ∷ pong ∷ []
read_frames-write_frames_example =
    read_frames-write_frames json (ping ∷ pong ∷ []) 5 written tt 3
      (ping-RoundTrips, (pong-RoundTrips, tt)) two_frames (omega arith)

one_frame : read_frame json (0 ∷ 0 ∷ 0 ∷ 1 ∷ 1 ∷ 9 ∷ []) ≡ (ok ping, 9 ∷ [])
unfolding read_frame
one_frame = refl

read_frame-bounds_example :
    (body : Bytes) × (json.unmarshal body ≡ some ping)
    × (0 < length body)
    × (length body ≤ max_frame)
    × (0 ∷ 0 ∷ 0 ∷ 1 ∷ 1 ∷ 9 ∷ [] ≡ put_uint32 (length body) ++ (body ++ 9 ∷ []))
read_frame-bounds_example =
    read_frame-bounds json (0 ∷ 0 ∷ 0 ∷ 1 ∷ 1 ∷ 9 ∷ []) (9 ∷ []) ping
      (omega arith, (omega arith, (omega arith, (omega arith, (omega arith, (omega arith, tt))))))
      one_frame

interleaved_frames_rejected_example :
    (read_frame json (put_uint32 1 ++ (put_uint32 2 ++ (1 ∷ 2 ∷ 3 ∷ [])))).0 ≡ err bad_json
interleaved_frames_rejected_example =
    interleaved_frames_rejected json (1 ∷ []) (2 ∷ 3 ∷ []) (λ t. refl) (omega arith) (omega arith)
      (omega arith)
