-- ===== src/Text.antt =====
-- What the program uses of `str` beyond comparing and joining: the parts around a colon, prefixes,
-- and unsigned numbers.
use Prim.Native.String.{String, len, slice, [] as nil, ◌∷◌ as ◌∷s◌}
use Prim.Native.Char.{Char, code}
use text.Mathlib.Text.{starts_with}
use pgcluster.Prelude.{
  ℕ, ◌+◌, ◌-◌, ◌*◌, Bool, true, ◌&&◌, Option, none, some, ltb, leb, ◌==◌, if◌then◌else◌,
}

abbrev pub colon : ℕ
colon = 58

-- `s.rsplit_once(':')`: the parts around the last colon.
abbrev pub rsplit_colon : String → Option (String × String)
rsplit_colon nil = none
rsplit_colon (c ∷s s) = elim (rsplit_colon s) [
  | some (a, b) ↦ some (c ∷s a, b)
  | none ↦ if code c == colon then some (nil, s) else none
]

-- `s.strip_prefix(p)`
abbrev pub strip_prefix : String → String → Option String
strip_prefix s p = if starts_with s p then some (slice s (len p) (len s)) else none

abbrev pub is_digit : Char → Bool
is_digit c = leb 48 (code c) && leb (code c) 57

-- The digits that are left, after those that make `n`; `none` past the bound.
abbrev pub parse_digits : ℕ → ℕ → String → Option ℕ
parse_digits bound n nil = some n
parse_digits bound n (c ∷s s) =
    let m = n * 10 + (code c - 48) in
    let rest = parse_digits bound m s in if is_digit c && ltb m bound then rest else none

-- The digits after the sign, of which there is one at least.
abbrev parse_unsigned : ℕ → String → Option ℕ
parse_unsigned bound nil = none
parse_unsigned bound (c ∷s s) = parse_digits bound 0 (c ∷s s)

-- `s.parse()` for the unsigned integers below the bound; a plus may come first.
abbrev pub parse_uint : ℕ → String → Option ℕ
parse_uint bound nil = none
parse_uint bound (c ∷s s) =
    if code c == 43 then parse_unsigned bound s else parse_unsigned bound (c ∷s s)

-- `s.contains(p)`
abbrev pub contains : String → String → Bool
contains nil p = starts_with nil p
contains (c ∷s s) p = let rest = contains s p in if starts_with (c ∷s s) p then true else rest
