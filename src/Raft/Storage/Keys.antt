-- ===== src/Raft/Storage/Keys.antt =====
-- The keys of the log's tree in pgcluster/src/raft/storage.rs: eight big-endian bytes, whose
-- lexicographic order is the order of the indices.
use pgcluster.Prelude.{
  ℕ, zero, suc, ◌/◌, ◌%◌, ◌^◌, ◌<◌, ◌≡◌, refl, sym, ◌∙◌, Bool, true, false, ◌&&◌, List, [], ◌∷◌,
  ◌++◌, arith, ltb, leb, ◌==◌, if◌then◌else◌, length, length-append,
}

abbrev pub Bytes : Type 0
Bytes = List ℕ

-- The bytes of `n` from the lowest up, in front of those that are there.
be_bytes_onto : ℕ → ℕ → Bytes
be_bytes_onto zero n = []
be_bytes_onto (suc w) n = be_bytes_onto w (n / 256) ++ (n % 256 ∷ [])

-- `u64::to_be_bytes`
unfoldable pub idx_key : ℕ → Bytes
unfolding be_bytes_onto
idx_key n = be_bytes_onto 8 n

-- The order of byte strings that sled keeps: lexicographic, a prefix first.
abbrev pub bytes_le : Bytes → Bytes → Bool
bytes_le [] ys = true
bytes_le (x ∷ xs) [] = false
bytes_le (x ∷ xs) (y ∷ ys) = if ltb x y then true else if ltb y x then false else bytes_le xs ys

abbrev pub bytes_eq : Bytes → Bytes → Bool
bytes_eq xs ys = bytes_le xs ys && bytes_le ys xs

pub bytes_le_antisym : (xs ys : Bytes) → bytes_le xs ys ≡ true → bytes_le ys xs ≡ true → xs ≡ ys
bytes_le_antisym [] [] h k = refl
bytes_le_antisym [] (y ∷ ys) h k = ground arith
bytes_le_antisym (x ∷ xs) [] h k = ground arith
bytes_le_antisym (x ∷ xs) (y ∷ ys) h k = ground (arith, bytes_le_antisym xs ys)

pub bytes_le_refl : (xs : Bytes) → bytes_le xs xs ≡ true
bytes_le_refl [] = refl
bytes_le_refl (x ∷ xs) = ground (arith, bytes_le_refl xs)

pub bytes_le_total : (xs ys : Bytes) → bytes_le xs ys ≡ false → bytes_le ys xs ≡ true
bytes_le_total [] ys h = ground arith
bytes_le_total (x ∷ xs) [] h = refl
bytes_le_total (x ∷ xs) (y ∷ ys) h = ground (arith, bytes_le_total xs ys)

pub bytes_le_trans :
    (xs ys zs : Bytes) → bytes_le xs ys ≡ true → bytes_le ys zs ≡ true → bytes_le xs zs ≡ true
bytes_le_trans [] ys zs h k = refl
bytes_le_trans (x ∷ xs) [] zs h k = ground arith
bytes_le_trans (x ∷ xs) (y ∷ ys) [] h k = ground arith
bytes_le_trans (x ∷ xs) (y ∷ ys) (z ∷ zs) h k = ground (arith, bytes_le_trans xs ys zs)

pub bytes_eq-true : (xs ys : Bytes) → bytes_eq xs ys ≡ true → xs ≡ ys
bytes_eq-true xs ys h = ground (arith, bytes_le_antisym xs ys)

pub bytes_eq_refl : (xs : Bytes) → bytes_eq xs xs ≡ true
bytes_eq_refl xs = ground (arith, bytes_le_refl xs)

-- Strings of one length are compared by what precedes the last byte, and by it where that is equal.
bytes_le-append :
    (xs ys : Bytes) (a b : ℕ)
    → length xs ≡ length ys
    → bytes_le (xs ++ (a ∷ [])) (ys ++ (b ∷ []))
      ≡ (if bytes_le xs ys then (if bytes_le ys xs then leb a b else true) else false)
bytes_le-append [] [] a b h = ground arith
bytes_le-append [] (y ∷ ys) a b h = absurd (omega arith)
bytes_le-append (x ∷ xs) [] a b h = absurd (omega arith)
bytes_le-append (x ∷ xs) (y ∷ ys) a b h =
    let rest = bytes_le-append xs ys a b (omega arith) in ground (arith, rest)

length-be_bytes_onto : (w n : ℕ) → length (be_bytes_onto w n) ≡ w
unfolding be_bytes_onto
length-be_bytes_onto zero n = refl
length-be_bytes_onto (suc w) n = omega (
  arith,
  length-be_bytes_onto w (n / 256),
  length-append (be_bytes_onto w (n / 256)) (n % 256 ∷ []),
)

be_bytes_onto-le :
    (w m n : ℕ)
    → m < 256 ^ w
    → n < 256 ^ w
    → bytes_le (be_bytes_onto w m) (be_bytes_onto w n) ≡ leb m n
unfolding be_bytes_onto
be_bytes_onto-le zero m n h k = ground arith
be_bytes_onto-le (suc w) m n h k =
    let below = be_bytes_onto-le w (m / 256) (n / 256) (omega arith) (omega arith) in
    let above = be_bytes_onto-le w (n / 256) (m / 256) (omega arith) (omega arith) in
    let lengths = length-be_bytes_onto w (m / 256) ∙ sym (length-be_bytes_onto w (n / 256)) in
    let last =
      bytes_le-append (be_bytes_onto w (m / 256)) (be_bytes_onto w (n / 256)) (m % 256) (n % 256)
        lengths in
    ground (arith, below, above, last)

-- The order of keys is that of their indices.
pub idx_key-le : (m n : ℕ) → m < 2 ^ 64 → n < 2 ^ 64 → bytes_le (idx_key m) (idx_key n) ≡ leb m n
unfolding idx_key
idx_key-le m n h k = be_bytes_onto-le 8 m n h k

pub idx_key-eq : (m n : ℕ) → m < 2 ^ 64 → n < 2 ^ 64 → bytes_eq (idx_key m) (idx_key n) ≡ (m == n)
idx_key-eq m n h k = ground (arith, idx_key-le m n h k, idx_key-le n m k h)
