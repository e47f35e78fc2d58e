-- ===== src/Proxy/Wire/Startup.antt =====
-- The first message of a client: `read_startup_message` and `parse_startup_params` of
-- pgcluster/src/proxy/protocol.rs, and `encode_startup_message` of connection.rs, which writes the
-- parameters again for the backend. `bytes` are the bytes of a string, `as_bytes`.
use pgcluster.Prelude.{
  ℕ, ◌+◌, ◌-◌, ◌%◌, ◌^◌, String, ◌≡◌, refl, ap, subst, ◌∙◌, ◌≢◌, false, ◌||◌, Option, none, some,
  List, [], ◌∷◌, ◌++◌, arith, eq_iff, ltb, ◌==◌, if◌then◌else◌, length, take, drop, All,
}
use pgcluster.Dict.{Dict, get, insert, IsMap, get-insert}
use pgcluster.Proxy.Wire.{Result, ok, error, and_then, to_be_bytes, from_be_bytes}

pub data StartupMessage : Type 0 where
  startup_message : Dict String → StartupMessage
  ssl_request : StartupMessage
  cancel_request : ℕ → ℕ → StartupMessage

abbrev pub protocol_v3 : ℕ
protocol_v3 = 196608

abbrev pub ssl_request_code : ℕ
ssl_request_code = 80877103

abbrev pub cancel_request_code : ℕ
cancel_request_code = 80877102

abbrev cons_first : ℕ → List (List ℕ) → List (List ℕ)
cons_first b [] = (b ∷ []) ∷ []
cons_first b (s ∷ ss) = (b ∷ s) ∷ ss

-- `buf.split(|&b| b == 0)`
abbrev pub segments : List ℕ → List (List ℕ)
segments [] = [] ∷ []
segments (b ∷ bs) = if b == 0 then [] ∷ segments bs else cons_first b (segments bs)

module _ (utf8 : List ℕ → Option String) where
  abbrev pub decoded : List ℕ → Result String
  decoded bs = elim (utf8 bs) [ none ↦ error | some s ↦ ok s ]

  -- The loop: an empty key, or the end, stops it.
  unfoldable pub parse_pairs : List (List ℕ) → Dict String → Result (Dict String)
  parse_pairs [] params = ok params
  parse_pairs ([] ∷ ss) params = ok params
  parse_pairs ((b ∷ key) ∷ []) params = error
  parse_pairs ((b ∷ key) ∷ val ∷ ss) params =
      and_then (decoded (b ∷ key))
        (λ k. and_then (decoded val) (λ v. parse_pairs ss (insert params k v)))

  unfoldable pub parse_startup_params : List ℕ → Result (Dict String)
  parse_startup_params buf = parse_pairs (segments buf) []

  -- The message of a code, from the rest of the stream.
  unfoldable pub startup_of : ℕ → ℕ → List ℕ → Result StartupMessage
  startup_of total_len code stream =
      if code == ssl_request_code
      then ok ssl_request
      else if code == cancel_request_code
      then (if ltb (length stream) 8
          then error
          else ok (
              cancel_request (from_be_bytes 0 (take 4 stream))
                (from_be_bytes 0 (take 4 (drop 4 stream)))))
      else if code == protocol_v3
      then (if ltb (length stream) (total_len - 8)
          then error
          else and_then (parse_startup_params (take (total_len - 8) stream))
              (λ params. ok (startup_message params)))
      else error

  unfoldable pub read_startup_message : List ℕ → Result StartupMessage
  read_startup_message stream =
      let total_len = from_be_bytes 0 (take 4 stream) in
      if ltb (length stream) 4 || ltb total_len 8 || ltb (length stream) 8
      then error
      else startup_of total_len (from_be_bytes 0 (take 4 (drop 4 stream))) (drop 8 stream)

module _ (bytes : String → List ℕ) where
  unfoldable pub encode_params : Dict String → List ℕ
  encode_params [] = 0 ∷ []
  encode_params ((k, v) ∷ ps) = bytes k ++ (0 ∷ (bytes v ++ (0 ∷ encode_params ps)))

  unfoldable pub encode_startup_message : Dict String → List ℕ
  encode_startup_message ps =
      let body = to_be_bytes protocol_v3 ++ encode_params ps in
      to_be_bytes ((4 + length body % 2 ^ 32) % 2 ^ 32) ++ body

abbrev pub NoZero : List ℕ → Type 0
NoZero bs = All (λ b. b ≢ 0) bs

segments-append : (xs ys : List ℕ) → NoZero xs → segments (xs ++ 0 ∷ ys) ≡ xs ∷ segments ys
segments-append [] ys h = refl
segments-append (x ∷ xs) ys h =
    let nonzero : x == 0 ≡ false = ground (arith, h.0) in
    rw (nonzero, segments-append xs ys h.1) refl

-- The parameters, read one after the other into a map.
unfoldable pub insert_all : Dict String → Dict String → Dict String
insert_all m [] = m
insert_all m ((k, v) ∷ ps) = insert_all (insert m k v) ps

get-insert_all :
    (m ps : Dict String) (key : String)
    → IsMap ps
    → get (insert_all m ps) key ≡ (elim (get ps key) [ none ↦ get m key | some v ↦ some v ])
unfolding insert_all
get-insert_all m [] key h = refl
get-insert_all m ((k, v) ∷ ps) key h =
    let new : k ≡ key → get ps key ≡ none = λ e. subst (λ x. get ps x ≡ none) e h.0 in
    ground
      (arith, get-insert_all (insert m k v) ps key h.1, get-insert m k key v, eq_iff k key, new)

module _ (utf8 : List ℕ → Option String) (bytes : String → List ℕ) where
  -- Parameters as they can be sent: without a zero byte, the key not empty, and in UTF-8.
  abbrev pub Sendable : Dict String → Type 0
  Sendable [] = Unit
  Sendable ((k, v) ∷ ps) =
      (NoZero (bytes k)
        × NoZero (bytes v)
        × (bytes k ≢ [])
        × (utf8 (bytes k) ≡ some k)
        × (utf8 (bytes v) ≡ some v))
      × Sendable ps

  parse_pairs_step :
      (key val : List ℕ) (k v : String) (ss : List (List ℕ)) (m : Dict String)
      → key ≢ []
      → utf8 key ≡ some k
      → utf8 val ≡ some v
      → parse_pairs utf8 (key ∷ val ∷ ss) m ≡ parse_pairs utf8 ss (insert m k v)
  unfolding parse_pairs
  parse_pairs_step [] val k v ss m h e f = absurd (h refl)
  parse_pairs_step (b ∷ key) val k v ss m h e f = ground arith

  parse_pairs-encode_params :
      (ps m : Dict String)
      → Sendable ps
      → parse_pairs utf8 (segments (encode_params bytes ps)) m ≡ ok (insert_all m ps)
  unfolding parse_pairs encode_params insert_all
  parse_pairs-encode_params [] m h = refl
  parse_pairs-encode_params ((k, v) ∷ ps) m h =
      let rest = encode_params bytes ps in
      ap (λ x. parse_pairs utf8 x m) (segments-append (bytes k) (bytes v ++ (0 ∷ rest)) h.0.0)
      ∙ ap (λ x. parse_pairs utf8 (bytes k ∷ x) m) (segments-append (bytes v) rest h.0.1)
      ∙ parse_pairs_step (bytes k) (bytes v) k v (segments rest) m h.0.2 h.0.3 h.0.4
      ∙ parse_pairs-encode_params ps (insert m k v) h.1

  -- Startup parameters that are encoded for the backend are read back with the same value for every
  -- key, if no key comes twice, no key is empty, no key or value has a zero byte, and each decodes
  -- from its bytes.
  pub parse_startup_params-encode_params :
      (ps : Dict String)
      → IsMap ps
      → Sendable ps
      → (read : Dict String) × (parse_startup_params utf8 (encode_params bytes ps) ≡ ok read)
        × ((key : String) → get read key ≡ get ps key)
  unfolding parse_startup_params
  parse_startup_params-encode_params ps distinct h = (
    insert_all [] ps,
    parse_pairs-encode_params ps [] h,
    λ key. ground (arith, get-insert_all [] ps key distinct),
  )
