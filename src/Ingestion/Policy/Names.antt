-- ===== src/Ingestion/Policy/Names.antt =====
-- The names and media types of packages/ingestion/src/policy.ts in plain terms.
use Prim.Native.Char.{code}
use infinite_context.Prelude.{
  ℕ, ◌<◌, ◌≤◌, String, Option, none, some, true, false, List, [], ◌∷◌, ◌≡◌, ◌≢◌, ◌⊎◌, refl, arith,
  Bool-cases, inl, inr, str_eq, eq_iff, any, utf16_length,
}
use infinite_context.Ingestion.Policy.{
  has_char, is_safe_name, is_code_pair, fits_extension, look_up, or_else, media_aliases,
}

-- No character of the text has the code.
abbrev pub IsFreeOf : ℕ → String → Type 0
IsFreeOf n String.[] = Unit
IsFreeOf n (String.◌∷◌ c s) = (code c ≢ n) × IsFreeOf n s

-- A file name of 1 to 255 code units without NUL, `/` and `\`, and no name of a directory.
pub record IsSafe (name : String) : Type 0 where
  pub named : 0 < utf16_length name
  pub short : utf16_length name ≤ 255
  pub no_nul : IsFreeOf 0 name
  pub no_slash : IsFreeOf 47 name
  pub no_backslash : IsFreeOf 92 name
  pub not_here : name ≢ "."
  pub not_up : name ≢ ".."

absent-IsFreeOf : (n : ℕ) (s : String) → has_char n s ≡ false → IsFreeOf n s
absent-IsFreeOf n String.[] h = tt
absent-IsFreeOf n (String.◌∷◌ c s) h =
    (λ e. absurd (ground arith), absent-IsFreeOf n s (ground arith))

IsFreeOf-absent : (n : ℕ) (s : String) → IsFreeOf n s → has_char n s ≡ false
IsFreeOf-absent n String.[] h = refl
IsFreeOf-absent n (String.◌∷◌ c s) h = ground (arith, h.0, IsFreeOf-absent n s h.1)

pub is_safe_name-IsSafe : (name : String) → is_safe_name name ≡ true → IsSafe name
unfolding is_safe_name
is_safe_name-IsSafe name h = record {
  named = ground arith;
  short = ground arith;
  no_nul = absent-IsFreeOf 0 name (ground arith);
  no_slash = absent-IsFreeOf 47 name (ground arith);
  no_backslash = absent-IsFreeOf 92 name (ground arith);
  not_here = λ e. ground (arith, eq_iff name ".");
  not_up = λ e. ground (arith, eq_iff name "..");
}

pub IsSafe-is_safe_name : (name : String) → IsSafe name → is_safe_name name ≡ true
unfolding is_safe_name
IsSafe-is_safe_name name v = ground (
  arith,
  v.named,
  v.short,
  IsFreeOf-absent 0 name v.no_nul,
  IsFreeOf-absent 47 name v.no_slash,
  IsFreeOf-absent 92 name v.no_backslash,
  v.not_here,
  v.not_up,
  eq_iff name ".",
  eq_iff name "..",
)

-- One of the listed media types.
abbrev pub IsListed : String → List String → Type 0
IsListed t [] = ⊥
IsListed t (u ∷ us) = (u ≡ t) ⊎ IsListed t us

pub any-IsListed : (t : String) (us : List String) → any (λ u. str_eq u t) us ≡ true → IsListed t us
any-IsListed t [] h = absurd (ground arith)
any-IsListed t (u ∷ us) h = elim (Bool-cases (str_eq u t)) [
  | inl e ↦ inl (ground (arith, eq_iff u t))
  | inr e ↦ inr (any-IsListed t us (ground arith))
]

pub IsListed-any : (t : String) (us : List String) → IsListed t us → any (λ u. str_eq u t) us ≡ true
IsListed-any t [] i = absurd i
IsListed-any t (u ∷ us) (inl e) = ground (arith, eq_iff u t)
IsListed-any t (u ∷ us) (inr i) = ground (arith, IsListed-any t us i)

-- Two media types for one kind of code.
abbrev pub AreTwins : String → String → Type 0
AreTwins a b =
    ((a ≡ "application/javascript") × (b ≡ "text/javascript"))
    ⊎ ((a ≡ "application/typescript") × (b ≡ "text/typescript"))
    ⊎ ((a ≡ "text/yaml") × (b ≡ "application/x-yaml"))

-- The extension is unknown, or of the declared type or its twin.
abbrev pub IsOfExtension : Option String → String → Type 0
IsOfExtension none declared = Unit
IsOfExtension (some t) declared = (t ≡ declared) ⊎ AreTwins declared t ⊎ AreTwins t declared

pair-AreTwins : (a b : String) → is_code_pair a b ≡ true → AreTwins a b
unfolding is_code_pair
pair-AreTwins a b h = ground (
  arith,
  eq_iff "application/javascript" a,
  eq_iff "text/javascript" b,
  eq_iff "application/typescript" a,
  eq_iff "text/typescript" b,
  eq_iff "text/yaml" a,
  eq_iff "application/x-yaml" b,
)

AreTwins-pair : (a b : String) → AreTwins a b → is_code_pair a b ≡ true
unfolding is_code_pair
AreTwins-pair a b h = ground (
  arith,
  h,
  eq_iff "application/javascript" a,
  eq_iff "text/javascript" b,
  eq_iff "application/typescript" a,
  eq_iff "text/typescript" b,
  eq_iff "text/yaml" a,
  eq_iff "application/x-yaml" b,
)

pub fits-IsOfExtension :
    (o : Option String) (declared : String)
    → fits_extension o declared ≡ true
    → IsOfExtension o declared
fits-IsOfExtension none declared h = tt
fits-IsOfExtension (some t) declared h = elim (Bool-cases (str_eq t declared)) [
  | inl e ↦ inl (ground (arith, eq_iff t declared))
  | inr e ↦ elim (Bool-cases (is_code_pair declared t)) [
    | inl k ↦ inr (inl (pair-AreTwins declared t k))
    | inr k ↦ inr (inr (pair-AreTwins t declared (ground arith)))
  ]
]

pub IsOfExtension-fits :
    (o : Option String) (declared : String)
    → IsOfExtension o declared
    → fits_extension o declared ≡ true
IsOfExtension-fits none declared h = refl
IsOfExtension-fits (some t) declared (inl e) = ground (arith, eq_iff t declared)
IsOfExtension-fits (some t) declared (inr (inl e)) = ground (arith, AreTwins-pair declared t e)
IsOfExtension-fits (some t) declared (inr (inr e)) = ground (arith, AreTwins-pair t declared e)

-- The media type that is meant by one without its parameters: four have another name.
abbrev pub IsMeant : String → String → Type 0
IsMeant base t =
    ((base ≡ "application/x-javascript") × (t ≡ "application/javascript"))
    ⊎ ((base ≡ "application/x-typescript") × (t ≡ "application/typescript"))
    ⊎ ((base ≡ "text/json") × (t ≡ "application/json"))
    ⊎ ((base ≡ "image/jpg") × (t ≡ "image/jpeg"))
    ⊎ ((base ≢ "application/x-javascript")
        × (base ≢ "application/x-typescript")
        × (base ≢ "text/json")
        × (base ≢ "image/jpg")
        × (t ≡ base))

pub look_up-IsMeant : (base : String) → IsMeant base (or_else (look_up base media_aliases) base)
unfolding media_aliases
look_up-IsMeant base = elim (Bool-cases (str_eq "application/x-javascript" base)) [
  | inl a ↦ inl (ground (arith, eq_iff "application/x-javascript" base), rw a refl)
  | inr a ↦ elim (Bool-cases (str_eq "application/x-typescript" base)) [
    | inl b ↦ inr (inl (ground (arith, eq_iff "application/x-typescript" base), rw (a, b) refl))
    | inr b ↦ elim (Bool-cases (str_eq "text/json" base)) [
      | inl c ↦ inr (inr (inl (ground (arith, eq_iff "text/json" base), rw (a, b, c) refl)))
      | inr c ↦ elim (Bool-cases (str_eq "image/jpg" base)) [
        | inl d ↦
            inr (inr (inr (inl (ground (arith, eq_iff "image/jpg" base), rw (a, b, c, d) refl))))
        | inr d ↦ inr (
            inr (
              inr (
                inr (
                  λ e. ground (arith, eq_iff "application/x-javascript" base),
                  λ e. ground (arith, eq_iff "application/x-typescript" base),
                  λ e. ground (arith, eq_iff "text/json" base),
                  λ e. ground (arith, eq_iff "image/jpg" base),
                  rw (a, b, c, d) refl,
                ))))
      ]
    ]
  ]
]

pub IsMeant-look_up :
    (base t : String) → IsMeant base t → or_else (look_up base media_aliases) base ≡ t
unfolding media_aliases
IsMeant-look_up base t (inl (e, k)) = rw (e, k) refl
IsMeant-look_up base t (inr (inl (e, k))) = rw (e, k) refl
IsMeant-look_up base t (inr (inr (inl (e, k)))) = rw (e, k) refl
IsMeant-look_up base t (inr (inr (inr (inl (e, k))))) = rw (e, k) refl
IsMeant-look_up base t (inr (inr (inr (inr v)))) = ground (
  arith,
  v,
  eq_iff "application/x-javascript" base,
  eq_iff "application/x-typescript" base,
  eq_iff "text/json" base,
  eq_iff "image/jpg" base,
)
