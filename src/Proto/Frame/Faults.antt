-- ===== src/Proto/Frame/Faults.antt =====
-- What ReadFrame accepts, what WriteFrame leaves behind when it fails, and what becomes of two
-- frames whose writes interleave.
use light_pn.Prelude.{
  ℕ, zero, suc, ◌+◌, ◌*◌, ◌/◌, ◌%◌, ◌^◌, ◌≤◌, ◌<◌, ◌≡◌, refl, ap, sym, ◌∙◌, subst, [], ◌∷◌, ◌++◌,
  none, some, ok, err, arith, leb, length, take, drop, length-append, All, Bool-cases, inl, inr,
}
use mathlib.Core.List.{append_assoc}
use light_pn.Prelude.Io.{and_then-ok}
use light_pn.Proto.{Bytes, Envelope, Json, max_frame, bad_json}
use light_pn.Proto.Frame.{put_uint32, get_uint32, read_full, check_length, decode, read_frame}
use light_pn.Proto.Frame.Roundtrip.{frame, read_frame-append, length-put_uint32}

abbrev IsByte : ℕ → Type 0
IsByte b = b < 256

length-take-drop :
    (n : ℕ) (r : Bytes)
    → n ≤ length r
    → (length (take n r) ≡ n) × (length r ≡ n + length (drop n r))
length-take-drop zero r h = (omega arith, omega arith)
length-take-drop (suc n) [] h = absurd (omega arith)
length-take-drop (suc n) (x ∷ r) h = omega (arith, length-take-drop n r (omega arith))

take-append-drop : (n : ℕ) (r : Bytes) → take n r ++ drop n r ≡ r
take-append-drop zero r = refl
take-append-drop (suc n) [] = refl
take-append-drop (suc n) (x ∷ r) = ap (◌∷◌ x) (take-append-drop n r)

read_full-ok :
    (n : ℕ) (r r' b : Bytes) → read_full n r ≡ (ok b, r') → (length b ≡ n) × (r ≡ b ++ r')
unfolding read_full
read_full-ok n r r' b h = elim (Bool-cases (leb n (length r))) [
  | inl e ↦
      let h' = rw e at h in
      let taken : take n r ≡ b = cc h' in
      let left : drop n r ≡ r' = cc h' in
      rw (sym taken)
        (rw (sym left) ((length-take-drop n r (ground (arith, e))).0, sym (take-append-drop n r)))
  | inr e ↦ cc (rw e at h)
]

-- four bytes are the big-endian form of the number that they are read as
put-get_uint32 :
    (hdr r : Bytes) → length hdr ≡ 4 → All IsByte (hdr ++ r) → put_uint32 (get_uint32 hdr) ≡ hdr
unfolding put_uint32 get_uint32
put-get_uint32 [] r n h = absurd (omega (arith, n))
put-get_uint32 (a ∷ []) r n h = absurd (omega (arith, n))
put-get_uint32 (a ∷ b ∷ []) r n h = absurd (omega (arith, n))
put-get_uint32 (a ∷ b ∷ c ∷ []) r n h = absurd (omega (arith, n))
put-get_uint32 (a ∷ b ∷ c ∷ d ∷ []) r n (ha, (hb, (hc, (hd, _)))) = bytes _ _ _ _ e1 e2 e3 e4
  where
    x : ℕ
    x = a * 2 ^ 24 + b * 2 ^ 16 + c * 2 ^ 8 + d

    e1 : x / 2 ^ 24 % 256 ≡ a
    e1 = omega arith

    e2 : x / 2 ^ 16 % 256 ≡ b
    e2 = omega arith

    e3 : x / 2 ^ 8 % 256 ≡ c
    e3 = omega arith

    e4 : x % 256 ≡ d
    e4 = omega arith

    bytes :
        (a' b' c' d' : ℕ)
        → a' ≡ a
        → b' ≡ b
        → c' ≡ c
        → d' ≡ d
        → a' ∷ b' ∷ c' ∷ d' ∷ [] ≡ a ∷ b ∷ c ∷ d ∷ []
    bytes a' b' c' d' p q s t = cc (p, q, s, t)
put-get_uint32 (a ∷ b ∷ c ∷ d ∷ e ∷ hdr) r n h = absurd (omega (arith, n))

check_length-ok :
    (n : ℕ) (r r' : Bytes) (u : Unit)
    → check_length n r ≡ (ok u, r')
    → (0 < n) × (n ≤ max_frame) × (r' ≡ r)
unfolding check_length
check_length-ok n r r' u h = (ground arith, ground arith, ground arith)

decode-eq :
    (j : Json Envelope) (b r r' : Bytes) (env : Envelope)
    → decode j b r ≡ (ok env, r')
    → (j.unmarshal b ≡ some env) × (r' ≡ r)
unfolding decode
decode-eq j b r r' env h = (ground arith, ground arith)

-- If ReadFrame accepts a frame of a stream of bytes, then the stream is the big-endian length of a
-- body of between 1 and MaxFrame bytes, that body and the rest that is left in the stream, and the
-- body is JSON of the envelope that is returned.
pub read_frame-bounds :
    (j : Json Envelope) (r r' : Bytes) (env : Envelope)
    → All IsByte r
    → read_frame j r ≡ (ok env, r')
    → (body : Bytes) × (j.unmarshal body ≡ some env)
      × (0 < length body)
      × (length body ≤ max_frame)
      × (r ≡ put_uint32 (length body) ++ (body ++ r'))
unfolding read_frame
read_frame-bounds j r r' env bytes h =
    let (hdr, r₁, e₁, h₁) = and_then-ok (read_full 4 r) _ h in
    let (u, r₂, e₂, h₂) = and_then-ok (check_length (get_uint32 hdr) r₁) _ h₁ in
    let (body, r₃, e₃, h₃) = and_then-ok (read_full (get_uint32 hdr) r₂) _ h₂ in
    let (four, split) = read_full-ok 4 r r₁ hdr e₁ in
    let (low, high, same) = check_length-ok (get_uint32 hdr) r₁ r₂ u e₂ in
    let (many, split') = read_full-ok (get_uint32 hdr) r₂ r₃ body e₃ in
    let (parsed, rest) = decode-eq j body r₃ r' env h₃ in
    let header : put_uint32 (length body) ≡ hdr =
      ap put_uint32 many ∙ put-get_uint32 hdr r₁ four (subst (All IsByte) split bytes) in
    let stream : r ≡ hdr ++ (body ++ r') =
      split ∙ ap (◌++◌ hdr) (sym same ∙ split' ∙ ap (◌++◌ body) (sym rest)) in
    (body, parsed, omega arith, omega arith, stream ∙ ap (λ x. x ++ (body ++ r')) (sym header))

-- The header of a frame of at most MaxFrame bytes starts with a zero byte.
take-put_uint32 :
    (m n : ℕ) (r : Bytes)
    → 0 < m
    → n ≤ max_frame
    → (t : Bytes) × (take m (put_uint32 n ++ r) ≡ 0 ∷ t)
unfolding put_uint32
take-put_uint32 zero n r p q = absurd (omega arith)
take-put_uint32 (suc m) n r p q =
    let rest : Bytes = (n / 2 ^ 16 % 256) ∷ (n / 2 ^ 8 % 256) ∷ (n % 256) ∷ r in
    (take m rest, ap (λ x. x ∷ take m rest) zero_byte)
  where
    zero_byte : n / 2 ^ 24 % 256 ≡ 0
    zero_byte = omega arith

decode-none :
    (j : Json Envelope) (b r : Bytes) → j.unmarshal b ≡ none → (decode j b r).0 ≡ err bad_json
unfolding decode
decode-none j b r e = rw (e, decode)

-- Two writers without a lock can send header, header, body, body. The reader then takes the second
-- header for the start of the first body and rejects the frame, if the JSON library rejects every
-- text that starts with a zero byte.
pub interleaved_frames_rejected :
    (j : Json Envelope) (a b : Bytes)
    → ((t : Bytes) → j.unmarshal (0 ∷ t) ≡ none)
    → 0 < length a
    → length a ≤ max_frame
    → length b ≤ max_frame
    → (read_frame j (put_uint32 (length a) ++ (put_uint32 (length b) ++ (a ++ b)))).0 ≡ err bad_json
interleaved_frames_rejected j a b law p q s =
    let rest = put_uint32 (length b) ++ (a ++ b) in
    let body = take (length a) rest in
    let long : length a ≤ length rest = omega (
      arith,
      length-append (put_uint32 (length b)) (a ++ b),
      length-append a b,
      length-put_uint32 (length b),
    ) in
    let size = (length-take-drop (length a) rest long).0 in
    let (t, zeroes) = take-put_uint32 (length a) (length b) (a ++ b) p s in
    let stream : put_uint32 (length a) ++ rest ≡ frame body ++ drop (length a) rest =
      rw (size, append_assoc (put_uint32 (length a)) body (drop (length a) rest))
        (ap (λ x. put_uint32 (length a) ++ x) (sym (take-append-drop (length a) rest))) in
    rw stream (
      rw
        (read_frame-append j body (drop (length a) rest) (omega (arith, size))
          (omega (arith, size)))
        (decode-none j body (drop (length a) rest) (rw zeroes (law t))))
