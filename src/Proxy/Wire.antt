-- ===== src/Proxy/Wire.antt =====
-- pgcluster/src/proxy/protocol.rs: the framing of messages, and the parser of the messages of a
-- client. A byte is a number, a stream is the list of the bytes to come, and `utf8` decodes a
-- string, as `std::str::from_utf8` does.
pub mod Frames
pub mod Panics
pub mod Startup
use pgcluster.Prelude.{
  ℕ, zero, suc, ◌+◌, ◌-◌, ◌*◌, ◌/◌, ◌%◌, ◌^◌, ◌≤◌, ◌<◌, min, max, String, ◌≡◌, refl, sym, ap, subst,
  ◌∙◌, ◌≢◌, ◌↔◌, ◌⊎◌, inl, inr, Bool, true, false, not, ◌&&◌, ◌||◌, Option, none, some, List, [],
  ◌∷◌, ◌++◌, map, arith, str_eq, eq_iff, ltb, leb, ◌==◌, if◌then◌else◌, ltb→lt, lt→ltb, leb→le,
  le→leb, Bool-cases, Option-cases, is_some, unwrap_or, length, take, drop, filter, any,
  length-append, length-drop, length-filter-le, All, In, All-In, All-of-In, In-filter, In-filter-of,
  is_empty, sort_by, sort_by-IsSorted, In-sort_by, sort_by-In, IsSorted, length-sort_by, max_by,
  min_by, max_by-IsMax, max_by-In, min_by-IsMin, min_by-In, max_by-none, min_by-none, In-append,
  append-In, In-take, In-drop, In-split, take-append-drop, length-take, take-IsSorted,
  filter-IsSorted, take-le-drop, length-filter-and, length-filter_mono, Distinct, pigeonhole,
  In-map, map-In, length-map, filter_map, In-filter_map, filter_map-In,
}

-- A slice out of its range panics; every other failure is an error value.
pub data Result (A : Type 0) : Type 0 where
  ok : A → Result A
  error : Result A
  panic : Result A

-- The `?` operator.
abbrev pub and_then : {A B : Type 0} → Result A → (A → Result B) → Result B
and_then (ok a) f = f a
and_then error f = error
and_then panic f = panic

-- The messages after the handshake.
pub data FrontendMessage : Type 0 where
  query : String → FrontendMessage
  -- name, query, parameter types
  parse : String → String → List ℕ → FrontendMessage
  -- portal, statement, parameters
  bind : String → String → List (List ℕ) → FrontendMessage
  -- portal, and the 32 bits of `max_rows`
  execute : String → ℕ → FrontendMessage
  describe : ℕ → String → FrontendMessage
  sync flush : FrontendMessage
  close : ℕ → String → FrontendMessage
  terminate : FrontendMessage
  copy_data : List ℕ → FrontendMessage
  copy_done : FrontendMessage
  copy_fail : String → FrontendMessage
  password_message : List ℕ → FrontendMessage

-- `u32::to_be_bytes`
abbrev pub to_be_bytes : ℕ → List ℕ
to_be_bytes n = n / 2 ^ 24 % 256 ∷ n / 2 ^ 16 % 256 ∷ n / 2 ^ 8 % 256 ∷ n % 256 ∷ []

-- `from_be_bytes`, for two or four bytes.
abbrev pub from_be_bytes : ℕ → List ℕ → ℕ
from_be_bytes n [] = n
from_be_bytes n (b ∷ bs) = from_be_bytes (n * 256 + b) bs

-- What is written for a message: the length is counted in 32 bits.
unfoldable pub write_message : ℕ → List ℕ → List ℕ
write_message msg_type body = msg_type ∷ to_be_bytes ((4 + length body % 2 ^ 32) % 2 ^ 32) ++ body

unfoldable pub write_ready_for_query : ℕ → List ℕ
write_ready_for_query txn_status = write_message 90 (txn_status ∷ [])

-- The three strings are given as bytes.
unfoldable pub write_error_response : List ℕ → List ℕ → List ℕ → List ℕ
write_error_response severity code message =
    write_message 69 (83 ∷ severity ++ 0 ∷ 67 ∷ code ++ 0 ∷ 77 ∷ message ++ 0 ∷ 0 ∷ [])

-- A frame that was read: the type, the payload, the frame's bytes, and the rest of the stream.
pub record Frame : Type 0 where
  pub msg_type : ℕ
  pub payload : List ℕ
  pub raw : List ℕ
  pub rest : List ℕ

-- The frame of a type and a length, from the stream after them. `raw` is put together from the
-- type and the length, as they were read, and the payload.
unfoldable pub frame_of : ℕ → ℕ → List ℕ → Option Frame
frame_of size msg_type stream =
    if ltb size 4 || ltb (length stream) (size - 4)
    then none
    else some (record {
      msg_type = msg_type;
      payload = take (size - 4) stream;
      raw = msg_type ∷ to_be_bytes size ++ take (size - 4) stream;
      rest = drop (size - 4) stream;
    })

-- `read_frontend_frame` up to the parser; `none` is an error, also at the end of the stream.
unfoldable pub read_frame : List ℕ → Option Frame
read_frame (t ∷ a ∷ b ∷ c ∷ d ∷ stream) = frame_of (from_be_bytes 0 (a ∷ b ∷ c ∷ d ∷ [])) t stream
read_frame _ = none

-- `iter().position(|&b| b == 0)`
abbrev pub position_of_zero : List ℕ → Option ℕ
position_of_zero [] = none
position_of_zero (b ∷ bs) =
    if b == 0 then some 0 else elim (position_of_zero bs) [ none ↦ none | some n ↦ some (suc n) ]

-- `buf.get(offset..offset + n)` as a number.
unfoldable pub read_be : ℕ → List ℕ → ℕ → Result ℕ
read_be n buf offset =
    if leb (offset + n) (length buf) then ok (from_be_bytes 0 (take n (drop offset buf))) else error

-- Whether an `i32` with these 32 bits is below zero.
abbrev pub is_negative : ℕ → Bool
is_negative n = leb (2 ^ 31) n

module _ (utf8 : List ℕ → Option String) where
  abbrev pub decode : List ℕ → ℕ → Option ℕ → Result (String × ℕ)
  decode slice offset none = error
  decode slice offset (some end) = elim (utf8 (take end slice)) [
    | none ↦ error
    | some s ↦ ok (s, offset + end + 1)
  ]

  unfoldable pub read_cstring_with_pos : List ℕ → ℕ → Result (String × ℕ)
  read_cstring_with_pos buf offset =
      if ltb (length buf) offset
      then panic
      else decode (drop offset buf) offset (position_of_zero (drop offset buf))

  unfoldable pub read_cstring : List ℕ → ℕ → Result String
  read_cstring buf offset = and_then (read_cstring_with_pos buf offset) (λ r. ok r.0)

  -- The loop over the parameter types of a Parse message.
  unfoldable pub param_types : ℕ → List ℕ → ℕ → Result (List ℕ)
  param_types zero buf p = ok []
  param_types (suc n) buf p =
      and_then (read_be 4 buf p) (λ t. and_then (param_types n buf (p + 4)) (λ ts. ok (t ∷ ts)))

  -- The loop over the parameters of a Bind message.
  unfoldable pub bind_params : ℕ → List ℕ → ℕ → Result (List (List ℕ))
  bind_params zero buf p = ok []
  bind_params (suc n) buf p = and_then (read_be 4 buf p) (λ len.
      if is_negative len
      then and_then (bind_params n buf (p + 4)) (λ ps. ok ([] ∷ ps))
      else if ltb (length buf) (p + 4 + len)
      then panic
      else and_then (bind_params n buf (p + 4 + len)) (λ ps. ok (take len (drop (p + 4) buf) ∷ ps)))

  unfoldable pub parse_parse : List ℕ → Result FrontendMessage
  parse_parse payload = and_then (read_cstring_with_pos payload 0) (λ (name, pos).
      and_then (read_cstring_with_pos payload pos) (λ (text, after).
        and_then (read_be 2 payload after) (λ count.
          and_then (param_types count payload (after + 2)) (λ types. ok (parse name text types)))))

  unfoldable pub parse_bind : List ℕ → Result FrontendMessage
  parse_bind payload = and_then (read_cstring_with_pos payload 0) (λ (portal, pos).
      and_then (read_cstring_with_pos payload pos) (λ (statement, after).
        and_then (read_be 2 payload after) (λ formats.
          let p = after + 2 + formats * 2 in
          and_then (read_be 2 payload p) (λ count.
            and_then (bind_params count payload (p + 2))
              (λ params. ok (bind portal statement params))))))

  unfoldable pub parse_execute : List ℕ → Result FrontendMessage
  parse_execute payload =
      and_then (read_cstring_with_pos payload 0) (λ (portal, pos).
        and_then (read_be 4 payload pos) (λ max_rows. ok (execute portal max_rows)))

  -- Describe and Close: a kind, and a name.
  unfoldable pub parse_kind : (ℕ → String → FrontendMessage) → List ℕ → Result FrontendMessage
  parse_kind build [] = error
  parse_kind build (kind ∷ payload) =
      and_then (read_cstring (kind ∷ payload) 1) (λ name. ok (build kind name))

  unfoldable pub parse_text : (String → FrontendMessage) → List ℕ → Result FrontendMessage
  parse_text build payload = and_then (read_cstring payload 0) (λ text. ok (build text))

  -- The type bytes are the letters Q, P, B, E, D, S, H, C, X, d, c, f and p.
  unfoldable pub parse_frontend_message : ℕ → List ℕ → Result FrontendMessage
  parse_frontend_message msg_type payload =
      if msg_type == 81
      then parse_text query payload
      else if msg_type == 80
      then parse_parse payload
      else if msg_type == 66
      then parse_bind payload
      else if msg_type == 69
      then parse_execute payload
      else if msg_type == 68
      then parse_kind describe payload
      else if msg_type == 83
      then ok sync
      else if msg_type == 72
      then ok flush
      else if msg_type == 67
      then parse_kind close payload
      else if msg_type == 88
      then ok terminate
      else if msg_type == 100
      then ok (copy_data payload)
      else if msg_type == 99
      then ok copy_done
      else if msg_type == 102
      then parse_text copy_fail payload
      else if msg_type == 112
      then ok (password_message payload)
      else error
