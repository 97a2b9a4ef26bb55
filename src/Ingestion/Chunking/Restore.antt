-- ===== src/Ingestion/Chunking/Restore.antt =====
-- Chunks of packages/ingestion/src/chunking.ts put together again.
use mathlib.Core.List.{append-nil, append_assoc}
use infinite_context.Prelude.{
  ℕ, zero, suc, ◌+◌, ◌-◌, ◌≤◌, ◌<◌, Option, none, some, not, List, [], ◌∷◌, ◌++◌, ◌≡◌, refl, sym,
  ap, ◌∙◌, arith, ◌==◌, ltb, length, take, drop, Bool-cases, inl, inr, take-append-drop, ◌&&◌,
}
use infinite_context.Ingestion.Chunking.{
  Text, Chunk, Chunker, newline, cons_first, split_lines, join_lines, flush, pieces, is_empty,
  chunk_from, chunk_lines,
}

-- A later piece of a long line goes on where the one before it ends; each other chunk starts a line.
abbrev separator : Option ℕ → Text
separator none = newline ∷ []
separator (some zero) = newline ∷ []
separator (some (suc _)) = []

-- The texts of the chunks, each line after a line end.
abbrev pub restored : List Chunk → Text
restored [] = []
restored (k ∷ ks) = separator k.location.column_start ++ k.text ++ restored ks

abbrev lined : List Text → Text
lined [] = []
lined (l ∷ ls) = newline ∷ l ++ lined ls

restored-append : (xs ys : List Chunk) → restored (xs ++ ys) ≡ restored xs ++ restored ys
restored-append [] ys = refl
restored-append (k ∷ xs) ys =
    let head = separator k.location.column_start ++ k.text in
    ap (λ t. head ++ t) (restored-append xs ys)
    ∙ sym (append_assoc head (restored xs) (restored ys))

lined-append : (xs ys : List Text) → lined (xs ++ ys) ≡ lined xs ++ lined ys
lined-append [] ys = refl
lined-append (l ∷ xs) ys =
    ap (λ t. newline ∷ l ++ t) (lined-append xs ys)
    ∙ ap (λ t. newline ∷ t) (sym (append_assoc l (lined xs) (lined ys)))

lined-join : (l : Text) (ls : List Text) → lined (l ∷ ls) ≡ newline ∷ join_lines (l ∷ ls)
lined-join l [] = ap (λ t. newline ∷ t) (append-nil l)
lined-join l (m ∷ ls) = ap (λ t. newline ∷ l ++ t) (lined-join m ls)

lined-cons_first :
    (c : ℕ) (ls : List Text) (t : Text)
    → lined ls ≡ newline ∷ t
    → lined (cons_first c ls) ≡ newline ∷ (c ∷ t)
lined-cons_first c [] t h = absurd (ground arith)
lined-cons_first c (l ∷ ls) t h = ground (arith, h)

lined-split_lines : (t : Text) → lined (split_lines t) ≡ newline ∷ t
unfolding split_lines
lined-split_lines [] = refl
lined-split_lines (c ∷ cs) = elim (Bool-cases (c == newline)) [
  | inl e ↦
      let same : newline ≡ c = ground arith in
      rw e (ap (λ k. newline ∷ k) (lined-split_lines cs ∙ ap (λ k. k ∷ cs) same))
  | inr e ↦ rw e (lined-cons_first c (split_lines cs) cs (lined-split_lines cs))
]

restored-flush :
    (c : Chunker) (o s i : ℕ) (buffer : List Text) → restored (flush c o s i buffer) ≡ lined buffer
restored-flush c o s i [] = refl
restored-flush c o s i (l ∷ ls) =
    ap (λ t. newline ∷ t) (append-nil (join_lines (l ∷ ls))) ∙ sym (lined-join l ls)

length-drop : (n : ℕ) (t : Text) → length (drop n t) ≡ length t - n
length-drop zero t = omega arith
length-drop (suc n) [] = omega arith
length-drop (suc n) (x ∷ t) = omega (arith, length-drop n t)

restored-later :
    (c : Chunker) (fuel o i offset : ℕ) (line : Text)
    → 0 < c.maximum
    → 0 < offset
    → length line ≤ fuel
    → restored (pieces c fuel o i offset line) ≡ line
unfolding pieces
restored-later c zero o i offset [] m p h = refl
restored-later c zero o i offset (x ∷ xs) m p h = absurd (omega arith)
restored-later c (suc fuel) o i offset [] m p h = refl
restored-later c (suc fuel) o i zero (x ∷ xs) m p h = absurd (omega arith)
restored-later c (suc fuel) o i (suc offset) (x ∷ xs) m p h =
    ap (λ t. take c.maximum (x ∷ xs) ++ t)
      (restored-later c fuel (o + 1) i (suc offset + c.maximum) (drop c.maximum (x ∷ xs)) m
        (omega arith) (omega (arith, length-drop c.maximum (x ∷ xs))))
    ∙ take-append-drop c.maximum (x ∷ xs)

restored-pieces :
    (c : Chunker) (o i : ℕ) (line : Text)
    → 0 < c.maximum
    → 0 < length line
    → restored (pieces c (length line) o i 0 line) ≡ newline ∷ line
unfolding pieces
restored-pieces c o i [] m h = absurd (omega arith)
restored-pieces c o i (x ∷ xs) m h =
    ap (λ t. newline ∷ (take c.maximum (x ∷ xs) ++ t))
      (restored-later c (length xs) (o + 1) i (0 + c.maximum) (drop c.maximum (x ∷ xs)) m
        (omega arith) (omega (arith, length-drop c.maximum (x ∷ xs))))
    ∙ ap (λ t. newline ∷ t) (take-append-drop c.maximum (x ∷ xs))

restored-chunk_from :
    (c : Chunker) (o i s : ℕ) (buffer : List Text) (n : ℕ) (lines : List Text)
    → 0 < c.maximum
    → restored (chunk_from c o i s buffer n lines) ≡ lined buffer ++ lined lines
unfolding chunk_from
restored-chunk_from c o i s buffer n [] m =
    restored-flush c o s i buffer ∙ sym (append-nil (lined buffer))
restored-chunk_from c o i s buffer n (line ∷ lines) m =
    let before = flush c o s i buffer in
    let flushed = o + length before in
    elim (Bool-cases (ltb c.maximum (length line))) [
      | inl e ↦
          let long = pieces c (length line) flushed i 0 line in
          let after = chunk_from c (flushed + length long) (i + 1) (i + 1) [] 0 lines in
          rw e (
            restored-append (before ++ long) after
            ∙ ap (λ t. t ++ restored after) (restored-append before long)
            ∙ append_assoc (restored before) (restored long) (restored after)
            ∙ ap (λ t. t ++ (restored long ++ restored after)) (restored-flush c o s i buffer)
            ∙ ap (λ t. lined buffer ++ (t ++ restored after))
                (restored-pieces c flushed i line m (ground arith))
            ∙ ap (λ t. lined buffer ++ (newline ∷ (line ++ t)))
                (restored-chunk_from c (flushed + length long) (i + 1) (i + 1) [] 0 lines m))
      | inr e ↦ elim (Bool-cases (not (is_empty buffer) && ltb c.target (n + length line + 1))) [
        | inl f ↦
            rw (e, f)
              (restored-append before _
                ∙ ap
                    (λ t.
                      t
                      ++ restored (chunk_from c flushed (i + 1) i (line ∷ []) (length line) lines))
                    (restored-flush c o s i buffer)
                ∙ ap (λ t. lined buffer ++ t)
                    (restored-chunk_from c flushed (i + 1) i (line ∷ []) (length line) lines m
                      ∙ ap (λ t. newline ∷ t ++ lined lines) (append-nil line)))
        | inr f ↦
            rw (e, f)
              (restored-chunk_from c o (i + 1) s (buffer ++ line ∷ []) _ lines m
                ∙ ap (λ t. t ++ lined lines) (lined-append buffer (line ∷ []))
                ∙ append_assoc (lined buffer) (lined (line ∷ [])) (lined lines)
                ∙ ap (λ t. lined buffer ++ (newline ∷ t ++ lined lines)) (append-nil line))
      ]
    ]

-- With a positive maximum, the chunks of a text that is not empty hold all of it, in order: put together, each
-- one that starts a line after a line end, they are the text after a line end.
pub restored-chunk_lines :
    (c : Chunker) (t : Text)
    → 0 < c.maximum
    → 0 < length t
    → restored (chunk_lines c t) ≡ newline ∷ t
unfolding chunk_lines
restored-chunk_lines c [] m h = absurd (omega arith)
restored-chunk_lines c (x ∷ xs) m h =
    restored-chunk_from c 0 0 0 [] 0 (split_lines (x ∷ xs)) m ∙ lined-split_lines (x ∷ xs)
