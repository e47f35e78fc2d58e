-- ===== src/Proxy/Wire/Panics.antt =====
-- Which messages can make the parser panic.
use pgcluster.Prelude.{
  ℕ, zero, suc, ◌+◌, ◌≤◌, ◌<◌, String, ◌≡◌, refl, ◌≢◌, inl, inr, Option, some, List, [], ◌∷◌, arith,
  Option-cases, length, drop, length-drop,
}
use pgcluster.Proxy.Wire.{
  Result, ok, error, panic, and_then, FrontendMessage, query, parse, execute, describe, close,
  copy_fail, read_be, read_cstring_with_pos, read_cstring, position_of_zero, param_types,
  parse_parse, parse_execute, parse_kind, parse_text, parse_frontend_message,
}

abbrev Safe : {A : Type 0} → Result A → Type 0
Safe r = r ≢ panic

and_then-Safe :
    {A B : Type 0} (r : Result A) (f : A → Result B)
    → Safe r
    → ((a : A) → r ≡ ok a → Safe (f a))
    → Safe (and_then r f)
and_then-Safe (ok a) f h k = k a refl
and_then-Safe error f h k = λ e. cc
and_then-Safe panic f h k = λ e. h refl

module _ (utf8 : List ℕ → Option String) where
  read_be-Safe : (n : ℕ) (buf : List ℕ) (offset : ℕ) → Safe (read_be n buf offset)
  unfolding read_be
  read_be-Safe n buf offset h = ground arith

  position_bound : (bs : List ℕ) (n : ℕ) → position_of_zero bs ≡ some n → n < length bs
  position_bound [] n h = absurd (ground arith)
  position_bound (b ∷ bs) n h = elim (Option-cases (position_of_zero bs)) [
    | inl e ↦ ground arith
    | inr (m, e) ↦ ground (arith, position_bound bs m e)
  ]

  -- A string within the buffer is read without a panic, and ends within it.
  read_cstring_with_pos-Safe :
      (buf : List ℕ) (offset : ℕ)
      → offset ≤ length buf
      → Safe (read_cstring_with_pos utf8 buf offset)
        × ((r : String × ℕ) → read_cstring_with_pos utf8 buf offset ≡ ok r → r.1 ≤ length buf)
  unfolding read_cstring_with_pos
  read_cstring_with_pos-Safe buf offset h =
      elim (Option-cases (position_of_zero (drop offset buf))) [
        | inl e ↦ (λ p. ground arith, λ r p. ground arith)
        | inr (n, e) ↦ (
          λ p. ground arith,
          λ r p. ground (arith, position_bound (drop offset buf) n e, length-drop offset buf),
        )
      ]

  read_cstring-Safe :
      (buf : List ℕ) (offset : ℕ) → offset ≤ length buf → Safe (read_cstring utf8 buf offset)
  unfolding read_cstring
  read_cstring-Safe buf offset h =
      and_then-Safe (read_cstring_with_pos utf8 buf offset) (λ r. ok r.0)
        (read_cstring_with_pos-Safe buf offset h).0 (λ r e p. cc)

  param_types-Safe : (n : ℕ) (buf : List ℕ) (p : ℕ) → Safe (param_types utf8 n buf p)
  unfolding param_types
  param_types-Safe zero buf p = λ e. cc
  param_types-Safe (suc n) buf p =
      and_then-Safe (read_be 4 buf p)
        (λ t. and_then (param_types utf8 n buf (p + 4)) (λ ts. ok (t ∷ ts))) (read_be-Safe 4 buf p)
        (λ t e.
          and_then-Safe (param_types utf8 n buf (p + 4)) (λ ts. ok (t ∷ ts))
            (param_types-Safe n buf (p + 4)) (λ ts q r. cc))

  parse_text-Safe :
      (build : String → FrontendMessage) (payload : List ℕ) → Safe (parse_text utf8 build payload)
  unfolding parse_text
  parse_text-Safe build payload =
      and_then-Safe (read_cstring utf8 payload 0) (λ text. ok (build text))
        (read_cstring-Safe payload 0 (omega arith)) (λ text e p. cc)

  parse_kind-Safe :
      (build : ℕ → String → FrontendMessage) (payload : List ℕ)
      → Safe (parse_kind utf8 build payload)
  unfolding parse_kind
  parse_kind-Safe build [] = λ e. cc
  parse_kind-Safe build (kind ∷ payload) =
      and_then-Safe (read_cstring utf8 (kind ∷ payload) 1) (λ name. ok (build kind name))
        (read_cstring-Safe (kind ∷ payload) 1 (omega arith)) (λ name e p. cc)

  parse_execute-Safe : (payload : List ℕ) → Safe (parse_execute utf8 payload)
  unfolding parse_execute
  parse_execute-Safe payload =
      and_then-Safe (read_cstring_with_pos utf8 payload 0)
        (λ (portal, pos).
          and_then (read_be 4 payload pos) (λ max_rows. ok (execute portal max_rows)))
        (read_cstring_with_pos-Safe payload 0 (omega arith)).0
        (λ r e.
          and_then-Safe (read_be 4 payload r.1) (λ max_rows. ok (execute r.0 max_rows))
            (read_be-Safe 4 payload r.1) (λ n q p. cc))

  parse_parse-Safe : (payload : List ℕ) → Safe (parse_parse utf8 payload)
  unfolding parse_parse
  parse_parse-Safe payload =
      let (first, bound) = read_cstring_with_pos-Safe payload 0 (omega arith) in
      and_then-Safe (read_cstring_with_pos utf8 payload 0)
        (λ (name, pos). and_then (read_cstring_with_pos utf8 payload pos) (λ (text, after).
          and_then (read_be 2 payload after) (λ count.
            and_then (param_types utf8 count payload (after + 2))
              (λ types. ok (parse name text types)))))
        first
        (λ r e.
          and_then-Safe (read_cstring_with_pos utf8 payload r.1)
            (λ (text, after). and_then (read_be 2 payload after) (λ count.
              and_then (param_types utf8 count payload (after + 2))
                (λ types. ok (parse r.0 text types))))
            (read_cstring_with_pos-Safe payload r.1 (bound r e)).0
            (λ s f.
              and_then-Safe (read_be 2 payload s.1)
                (λ count.
                  and_then (param_types utf8 count payload (s.1 + 2))
                    (λ types. ok (parse r.0 s.0 types)))
                (read_be-Safe 2 payload s.1)
                (λ count g.
                  and_then-Safe (param_types utf8 count payload (s.1 + 2))
                    (λ types. ok (parse r.0 s.0 types)) (param_types-Safe count payload (s.1 + 2))
                    (λ types q p. cc))))

  -- Whatever the payload and the decoding of text, if the parser panics then the message is a Bind;
  -- every other message gives a result or an error.
  pub only_bind_panics :
      (msg_type : ℕ) (payload : List ℕ)
      → parse_frontend_message utf8 msg_type payload ≡ panic
      → msg_type ≡ 66
  unfolding parse_frontend_message
  only_bind_panics msg_type payload h = ground (
    arith,
    parse_text-Safe query payload,
    parse_parse-Safe payload,
    parse_execute-Safe payload,
    parse_kind-Safe describe payload,
    parse_kind-Safe close payload,
    parse_text-Safe copy_fail payload,
  )
