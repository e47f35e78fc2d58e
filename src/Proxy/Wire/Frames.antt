-- ===== src/Proxy/Wire/Frames.antt =====
-- Frames against the bytes that they were read from, and written as.
use pgcluster.Prelude.{
  ℕ, ◌+◌, ◌-◌, ◌/◌, ◌%◌, ◌^◌, ◌<◌, ◌≡◌, refl, ap, ◌∙◌, false, ◌||◌, some, List, [], ◌∷◌, ◌++◌,
  arith, ltb, length, take, drop, length-append, All, take-append-drop,
}
use pgcluster.Proxy.Wire.{to_be_bytes, from_be_bytes, write_message, Frame, read_frame, frame_of}

abbrev pub IsByte : ℕ → Type 0
IsByte b = b < 256

-- The four bytes of a length.
abbrev pub four : ℕ → ℕ → ℕ → ℕ → List ℕ
four a b c d = a ∷ b ∷ c ∷ d ∷ []

same_four : (a b c d e f g h : ℕ) → a ≡ e → b ≡ f → c ≡ g → d ≡ h → four a b c d ≡ four e f g h
same_four a b c d e f g h ha hb hc hd = cc

bytes_of_four :
    (a b c d : ℕ)
    → IsByte a
    → IsByte b
    → IsByte c
    → IsByte d
    → to_be_bytes (from_be_bytes 0 (four a b c d)) ≡ four a b c d
bytes_of_four a b c d ha hb hc hd =
    let n = from_be_bytes 0 (four a b c d) in
    let ea : n / 16777216 % 256 ≡ a = omega arith in
    let eb : n / 65536 % 256 ≡ b = omega arith in
    let ec : n / 256 % 256 ≡ c = omega arith in
    let ed : n % 256 ≡ d = omega arith in
    same_four (n / 16777216 % 256) (n / 65536 % 256) (n / 256 % 256) (n % 256) a b c d ea eb ec ed

four_of_bytes : (n : ℕ) → n < 2 ^ 32 → from_be_bytes 0 (to_be_bytes n) ≡ n
four_of_bytes n h = omega arith

framed :
    (t a b c d : ℕ) (stream : List ℕ) (f : Frame)
    → read_frame (t ∷ a ∷ b ∷ c ∷ d ∷ stream) ≡ some f
    → let size = from_be_bytes 0 (four a b c d) in
      (f.msg_type ≡ t)
      × (f.payload ≡ take (size - 4) stream)
      × (f.raw ≡ t ∷ to_be_bytes size ++ take (size - 4) stream)
      × (f.rest ≡ drop (size - 4) stream)
unfolding read_frame frame_of
framed t a b c d stream f h = ground arith

-- If a frame is read from a stream of numbers below 256, then its bytes, which are forwarded, and
-- the rest are the stream, and its bytes are the type, four bytes, and the payload.
pub read_frame_keeps_bytes :
    (stream : List ℕ) (f : Frame)
    → All IsByte stream
    → read_frame stream ≡ some f
    → (f.raw ++ f.rest ≡ stream) × (a b c d : ℕ) × (f.raw ≡ f.msg_type ∷ four a b c d ++ f.payload)
unfolding read_frame frame_of
read_frame_keeps_bytes [] f bytes h = absurd (ground arith)
read_frame_keeps_bytes (t ∷ []) f bytes h = absurd (ground arith)
read_frame_keeps_bytes (t ∷ a ∷ []) f bytes h = absurd (ground arith)
read_frame_keeps_bytes (t ∷ a ∷ b ∷ []) f bytes h = absurd (ground arith)
read_frame_keeps_bytes (t ∷ a ∷ b ∷ c ∷ []) f bytes h = absurd (ground arith)
read_frame_keeps_bytes (t ∷ a ∷ b ∷ c ∷ d ∷ stream) f bytes h =
    let n = from_be_bytes 0 (four a b c d) - 4 in
    let (type, payload, raw, rest) = framed t a b c d stream f h in
    let length_bytes = bytes_of_four a b c d bytes.1.0 bytes.1.1.0 bytes.1.1.1.0 bytes.1.1.1.1.0 in
    let whole : take n stream ++ drop n stream ≡ stream = take-append-drop n stream in
    let joined : (t ∷ four a b c d ++ take n stream) ++ drop n stream ≡ t ∷ a ∷ b ∷ c ∷ d ∷ stream =
      ap (λ l. t ∷ a ∷ b ∷ c ∷ d ∷ l) whole in
    let raw' : f.raw ≡ t ∷ four a b c d ++ take n stream =
      raw ∙ ap (λ l. t ∷ l ++ take n stream) length_bytes in
    (rw (raw', rest) joined, a, b, c, d, rw (raw', type, payload) refl)

take-append : (xs ys : List ℕ) → take (length xs) (xs ++ ys) ≡ xs
take-append [] ys = refl
take-append (x ∷ xs) ys = ap (λ l. x ∷ l) (take-append xs ys)

drop-append : (xs ys : List ℕ) → drop (length xs) (xs ++ ys) ≡ ys
drop-append [] ys = refl
drop-append (x ∷ xs) ys = drop-append xs ys

frame_of_body :
    (n msg_type : ℕ) (body stream : List ℕ)
    → n ≡ 4 + length body
    → frame_of n msg_type (body ++ stream)
      ≡ some (record {
        msg_type = msg_type;
        payload = body;
        raw = msg_type ∷ to_be_bytes n ++ body;
        rest = stream;
      })
unfolding frame_of
frame_of_body n msg_type body stream h =
    let back : n - 4 ≡ length body = omega arith in
    let front : take (n - 4) (body ++ stream) ≡ body =
      ap (λ k. take k (body ++ stream)) back ∙ take-append body stream in
    let end : drop (n - 4) (body ++ stream) ≡ stream =
      ap (λ k. drop k (body ++ stream)) back ∙ drop-append body stream in
    let fits : ltb n 4 || ltb (length (body ++ stream)) (n - 4) ≡ false =
      ground (arith, length-append body stream) in
    rw (fits, front, end) refl

-- A message that was written with a body of fewer than 2^32 - 4 bytes is read back from any stream
-- that begins with it: its type, its body, its bytes as written, and the rest of the stream.
pub read_frame-write_message :
    (msg_type : ℕ) (body stream : List ℕ)
    → 4 + length body < 2 ^ 32
    → read_frame (write_message msg_type body ++ stream)
      ≡ some (record {
        msg_type = msg_type;
        payload = body;
        raw = write_message msg_type body;
        rest = stream;
      })
unfolding read_frame write_message
read_frame-write_message msg_type body stream h =
    let n = (4 + length body % 2 ^ 32) % 2 ^ 32 in
    let size : from_be_bytes 0 (to_be_bytes n) ≡ n = four_of_bytes n (omega arith) in
    ap (λ k. frame_of k msg_type (body ++ stream)) size
    ∙ frame_of_body n msg_type body stream (omega arith)
