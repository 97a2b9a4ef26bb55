-- ===== src/Ingestion/Chunking/Sizes.antt =====
-- The size and the number of each chunk of packages/ingestion/src/chunking.ts.
use infinite_context.Prelude.{
  ℕ, zero, suc, ◌+◌, ◌≤◌, false, not, List, [], ◌∷◌, ◌++◌, ◌≡◌, refl, subst, arith, ltb,
  if◌then◌else◌, length, take, drop, Bool-cases, inl, inr, ◌&&◌, max, length-append,
}
use infinite_context.Ingestion.Chunking.{
  Text, Chunk, Chunker, newline, split_lines, join_lines, flush, pieces, is_empty, chunk_from,
  chunk_lines,
}

-- The chunks have the numbers from `n` on, and the text of each fits the larger of target and maximum.
abbrev pub IsNumbered : Chunker → ℕ → List Chunk → Type 0
IsNumbered c n [] = Unit
IsNumbered c n (k ∷ ks) =
    ((k.ordinal ≡ n) × (length k.text ≤ max c.target c.maximum)) × IsNumbered c (n + 1) ks

IsNumbered-append :
    (c : Chunker) (n : ℕ) (xs ys : List Chunk)
    → IsNumbered c n xs
    → IsNumbered c (n + length xs) ys
    → IsNumbered c n (xs ++ ys)
IsNumbered-append c n [] ys v w = subst (λ m. IsNumbered c m ys) (omega arith) w
IsNumbered-append c n (x ∷ xs) ys v w =
    (v.0, IsNumbered-append c (n + 1) xs ys v.1 (subst (λ m. IsNumbered c m ys) (omega arith) w))

length-take-le : (n : ℕ) (t : Text) → length (take n t) ≤ n
length-take-le zero t = omega arith
length-take-le (suc n) [] = omega arith
length-take-le (suc n) (x ∷ t) = omega (arith, length-take-le n t)

pieces-IsNumbered :
    (c : Chunker) (fuel o i offset : ℕ) (line : Text)
    → IsNumbered c o (pieces c fuel o i offset line)
unfolding pieces
pieces-IsNumbered c zero o i offset line = tt
pieces-IsNumbered c (suc fuel) o i offset [] = tt
pieces-IsNumbered c (suc fuel) o i offset (x ∷ xs) = (
  (refl, omega (arith, length-take-le c.maximum (x ∷ xs))),
  pieces-IsNumbered c fuel (o + 1) i (offset + c.maximum) (drop c.maximum (x ∷ xs)),
)

length-join_push :
    (ls : List Text) (l : Text)
    → length (join_lines (ls ++ l ∷ []))
      ≡ length (join_lines ls) + length l + (if is_empty ls then 0 else 1)
length-join_push [] l = omega arith
length-join_push (x ∷ []) l = omega (arith, length-append x (newline ∷ l))
length-join_push (x ∷ (y ∷ ls)) l = omega (
  arith,
  length-append x (newline ∷ join_lines (y ∷ (ls ++ l ∷ []))),
  length-append x (newline ∷ join_lines (y ∷ ls)),
  length-join_push (y ∷ ls) l,
)

flush-IsNumbered :
    (c : Chunker) (o s i : ℕ) (buffer : List Text)
    → length (join_lines buffer) ≤ max c.target c.maximum
    → IsNumbered c o (flush c o s i buffer)
flush-IsNumbered c o s i [] h = tt
flush-IsNumbered c o s i (l ∷ ls) h = ((refl, h), tt)

pushed_fits :
    (c : Chunker) (buffer : List Text) (line : Text) (n : ℕ)
    → length (join_lines buffer) ≡ n
    → n ≤ max c.target c.maximum
    → length line ≤ c.maximum
    → not (is_empty buffer) && ltb c.target (n + length line + 1) ≡ false
    → n + length line + (if is_empty buffer then 0 else 1) ≤ max c.target c.maximum
pushed_fits c [] line n h le a b = omega (arith, h)
pushed_fits c (x ∷ xs) line n h le a b = ground arith

chunk_from-IsNumbered :
    (c : Chunker) (o i s : ℕ) (buffer : List Text) (n : ℕ) (lines : List Text)
    → length (join_lines buffer) ≡ n
    → n ≤ max c.target c.maximum
    → IsNumbered c o (chunk_from c o i s buffer n lines)
unfolding chunk_from
chunk_from-IsNumbered c o i s buffer n [] h le = flush-IsNumbered c o s i buffer (omega arith)
chunk_from-IsNumbered c o i s buffer n (line ∷ lines) h le =
    let before = flush c o s i buffer in
    let flushed = o + length before in
    let v : IsNumbered c o before = flush-IsNumbered c o s i buffer (omega arith) in
    elim (Bool-cases (ltb c.maximum (length line))) [
      | inl e ↦
          let long = pieces c (length line) flushed i 0 line in
          let after = chunk_from c (flushed + length long) (i + 1) (i + 1) [] 0 lines in
          rw e (
            IsNumbered-append c o (before ++ long) after
              (IsNumbered-append c o before long v
                (pieces-IsNumbered c (length line) flushed i 0 line))
              (subst (λ m. IsNumbered c m after) (omega (arith, length-append before long))
                (chunk_from-IsNumbered c (flushed + length long) (i + 1) (i + 1) [] 0 lines refl
                  (omega arith))))
      | inr e ↦ elim (Bool-cases (not (is_empty buffer) && ltb c.target (n + length line + 1))) [
        | inl f ↦
            rw (e, f)
              (IsNumbered-append c o before _ v (
                chunk_from-IsNumbered c flushed (i + 1) i (line ∷ []) (length line) lines refl
                  (ground arith)))
        | inr f ↦
            rw (e, f)
              (chunk_from-IsNumbered c o (i + 1) s (buffer ++ line ∷ []) _ lines
                (omega (arith, length-join_push buffer line, h))
                (pushed_fits c buffer line n h le (ground arith) f))
      ]
    ]

-- The chunks of a text are numbered from 0 on, and none is longer than the larger of target and maximum.
pub chunk_lines-IsNumbered : (c : Chunker) (t : Text) → IsNumbered c 0 (chunk_lines c t)
unfolding chunk_lines
chunk_lines-IsNumbered c [] = tt
chunk_lines-IsNumbered c (x ∷ xs) =
    chunk_from-IsNumbered c 0 0 0 [] 0 (split_lines (x ∷ xs)) refl (omega arith)
