-- ===== src/Ingestion/Chunking.antt =====
-- `chunkLines` of packages/ingestion/src/chunking.ts. A text is the list of its UTF-16 code units.
pub mod Restore
pub mod Sizes
use infinite_context.Prelude.{
  ℕ, zero, suc, ◌+◌, ◌-◌, ◌*◌, ◌/◌, String, Option, none, some, Bool, true, false, not, List, [],
  ◌∷◌, ◌++◌, ◌&&◌, ◌==◌, ltb, if◌then◌else◌, length, take, drop,
}

abbrev pub Text : Type 0
Text = List ℕ

pub record Location : Type 0 where
  pub line_start : ℕ
  pub line_end : ℕ
  pub column_start : Option ℕ
  pub column_end : Option ℕ
  pub symbol : Option String

pub record Chunk : Type 0 where
  pub ordinal : ℕ
  pub text : Text
  pub content_hash : String
  pub estimated_tokens : ℕ
  pub location : Location
  pub parser_version : String
  pub split_long_line : Bool

-- The arguments beside the text, with the defaults filled in, and the hash of the content store.
pub record Chunker : Type 0 where
  pub sha256 : Text → String
  pub parser_version : String
  pub base_line : Option ℕ
  pub base_symbol : Option String
  pub target : ℕ
  pub maximum : ℕ

abbrev pub newline : ℕ
newline = 10

abbrev pub cons_first : ℕ → List Text → List Text
cons_first c [] = (c ∷ []) ∷ []
cons_first c (l ∷ ls) = (c ∷ l) ∷ ls

-- `text.split("\n")` and `lines.join("\n")`.
unfoldable pub split_lines : Text → List Text
split_lines [] = [] ∷ []
split_lines (c ∷ cs) =
    let rest = split_lines cs in if c == newline then [] ∷ rest else cons_first c rest

abbrev pub join_lines : List Text → Text
join_lines [] = []
join_lines (l ∷ []) = l
join_lines (l ∷ (m ∷ ls)) = l ++ newline ∷ join_lines (m ∷ ls)

abbrev pub make_chunk : Chunker → Text → ℕ → Location → Bool → Chunk
make_chunk c value ordinal location split = record {
  ordinal = ordinal;
  text = value;
  content_hash = c.sha256 value;
  estimated_tokens = (length value + 3) / 4;
  location = location;
  parser_version = c.parser_version;
  split_long_line = split;
}

abbrev pub line_offset : Option ℕ → ℕ
line_offset none = 0
line_offset (some n) = n - 1

abbrev pub or_one : Option ℕ → ℕ
or_one none = 1
or_one (some n) = n

-- What `flush` pushes.
abbrev pub flush : Chunker → ℕ → ℕ → ℕ → List Text → List Chunk
flush c ordinal start end_exclusive [] = []
flush c ordinal start end_exclusive (l ∷ ls) =
    make_chunk c (join_lines (l ∷ ls)) ordinal
      (record {
        line_start = line_offset c.base_line + start + 1;
        line_end = line_offset c.base_line + end_exclusive;
        column_start = none;
        column_end = none;
        symbol = c.base_symbol;
      })
      false
    ∷ []

-- The loop over a long line, from `offset` on, where `line` is what is left of it.
unfoldable pub pieces : Chunker → ℕ → ℕ → ℕ → ℕ → Text → List Chunk
pieces c zero ordinal index offset line = []
pieces c (suc fuel) ordinal index offset [] = []
pieces c (suc fuel) ordinal index offset (x ∷ xs) =
    let value = take c.maximum (x ∷ xs) in
    make_chunk c value ordinal
      (record {
        line_start = or_one c.base_line + index;
        line_end = or_one c.base_line + index;
        column_start = some offset;
        column_end = some (offset + length value);
        symbol = c.base_symbol;
      })
      true
    ∷ pieces c fuel (ordinal + 1) index (offset + c.maximum) (drop c.maximum (x ∷ xs))

abbrev pub is_empty {ℓ} : {A : Type ℓ} → List A → Bool
is_empty [] = true
is_empty (_ ∷ _) = false

-- The loop over the lines: the chunks that it pushes after the first `ordinal` ones.
unfoldable pub chunk_from : Chunker → ℕ → ℕ → ℕ → List Text → ℕ → List Text → List Chunk
unfolding pieces
chunk_from c ordinal index start buffer size [] = flush c ordinal start index buffer
chunk_from c ordinal index start buffer size (line ∷ lines) =
    let before = flush c ordinal start index buffer in
    let flushed = ordinal + length before in
    let long = pieces c (length line) flushed index 0 line in
    let after_long = chunk_from c (flushed + length long) (index + 1) (index + 1) [] 0 lines in
    let after_flush = chunk_from c flushed (index + 1) index (line ∷ []) (length line) lines in
    let after_push =
      chunk_from c ordinal (index + 1) start (buffer ++ line ∷ [])
        (size + length line + (if is_empty buffer then 0 else 1)) lines in
    if ltb c.maximum (length line)
    then before ++ long ++ after_long
    else if not (is_empty buffer) && ltb c.target (size + length line + 1)
    then before ++ after_flush
    else after_push

unfoldable pub chunk_lines : Chunker → Text → List Chunk
unfolding chunk_from split_lines
chunk_lines c [] = []
chunk_lines c (x ∷ xs) = chunk_from c 0 0 0 [] 0 (split_lines (x ∷ xs))
