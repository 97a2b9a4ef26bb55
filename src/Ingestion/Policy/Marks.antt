-- ===== src/Ingestion/Policy/Marks.antt =====
-- The marks by which packages/ingestion/src/policy.ts recognizes content.
use infinite_context.Prelude.{
  ℕ, ◌%◌, ◌&&◌, ◌==◌, String, true, false, List, [], ◌∷◌, ◌≡◌, ◌≢◌, ◌⊎◌, refl, arith, ap, ◌∙◌,
  Bool-cases, inl, inr, str_eq, eq_iff, take, drop, map, length,
}
use infinite_context.Ingestion.Policy.{
  begins_with, begins_with_ascii, sniff_media_type, agrees, pdf_mark, png_mark, jpeg_mark,
  riff_mark, webp_mark,
}

-- The bytes as `toString("ascii")` reads them.
abbrev pub seven_bit : List ℕ → List ℕ
seven_bit = map (λ b. b % 128)

-- Content that has one of the four marks is declared as what it is.
pub record IsOfContent (declared : String) (bytes : List ℕ) : Type 0 where
  pub pdf :
      (take 5 (seven_bit bytes) ≢ 37 ∷ (80 ∷ (68 ∷ (70 ∷ (45 ∷ [])))))
      ⊎ (declared ≡ "application/pdf")
  pub png :
      (take 8 bytes ≢ 137 ∷ (80 ∷ (78 ∷ (71 ∷ (13 ∷ (10 ∷ (26 ∷ (10 ∷ []))))))))
      ⊎ (declared ≡ "image/png")
  pub jpeg : (take 3 bytes ≢ 255 ∷ (216 ∷ (255 ∷ []))) ⊎ (declared ≡ "image/jpeg")
  pub webp :
      (take 4 (seven_bit bytes) ≢ 82 ∷ (73 ∷ (70 ∷ (70 ∷ []))))
      ⊎ (take 4 (seven_bit (drop 8 bytes)) ≢ 87 ∷ (69 ∷ (66 ∷ (80 ∷ []))))
      ⊎ (declared ≡ "image/webp")

begins_with-take : (m bytes : List ℕ) → begins_with m bytes ≡ true → take (length m) bytes ≡ m
begins_with-take [] bytes h = refl
begins_with-take (x ∷ m) [] h = absurd (ground arith)
begins_with-take (x ∷ m) (b ∷ bytes) h = ground (arith, begins_with-take m bytes)

take-begins_with : (m bytes : List ℕ) → begins_with m bytes ≡ false → take (length m) bytes ≢ m
take-begins_with [] bytes h e = absurd (ground arith)
take-begins_with (x ∷ m) [] h e = absurd (ground arith)
take-begins_with (x ∷ m) (b ∷ bytes) h e = ground (arith, take-begins_with m bytes)

begins_with-seven_bit :
    (m bytes : List ℕ) → begins_with_ascii m bytes ≡ begins_with m (seven_bit bytes)
begins_with-seven_bit [] bytes = refl
begins_with-seven_bit (x ∷ m) [] = refl
begins_with-seven_bit (x ∷ m) (b ∷ bytes) =
    ap (λ r. (b % 128 == x) && r) (begins_with-seven_bit m bytes)

Mark-cases :
    (m bytes : List ℕ)
    → ((begins_with m bytes ≡ true) × (take (length m) bytes ≡ m))
      ⊎ ((begins_with m bytes ≡ false) × (take (length m) bytes ≢ m))
Mark-cases m bytes = elim (Bool-cases (begins_with m bytes)) [
  | inl h ↦ inl (h, begins_with-take m bytes h)
  | inr h ↦ inr (h, take-begins_with m bytes h)
]

Ascii-cases :
    (m bytes : List ℕ)
    → ((begins_with_ascii m bytes ≡ true) × (take (length m) (seven_bit bytes) ≡ m))
      ⊎ ((begins_with_ascii m bytes ≡ false) × (take (length m) (seven_bit bytes) ≢ m))
Ascii-cases m bytes = elim (Mark-cases m (seven_bit bytes)) [
  | inl (h, e) ↦ inl (begins_with-seven_bit m bytes ∙ h, e)
  | inr (h, e) ↦ inr (begins_with-seven_bit m bytes ∙ h, e)
]

-- No two marks fit the same bytes.
png_excludes :
    (bytes : List ℕ) → begins_with png_mark bytes ≡ true → begins_with_ascii pdf_mark bytes ≡ false
png_excludes [] h = absurd (ground arith)
png_excludes (b ∷ bytes) h = ground arith

jpeg_excludes :
    (bytes : List ℕ)
    → begins_with jpeg_mark bytes ≡ true
    → (begins_with_ascii pdf_mark bytes ≡ false) × (begins_with png_mark bytes ≡ false)
jpeg_excludes [] h = absurd (ground arith)
jpeg_excludes (b ∷ bytes) h = (ground arith, ground arith)

riff_excludes :
    (bytes : List ℕ)
    → begins_with_ascii riff_mark bytes ≡ true
    → (begins_with_ascii pdf_mark bytes ≡ false)
      × (begins_with png_mark bytes ≡ false)
      × (begins_with jpeg_mark bytes ≡ false)
riff_excludes [] h = absurd (ground arith)
riff_excludes (b ∷ bytes) h = (ground arith, ground arith, ground arith)

declared_as : (a b : String) → b ≡ a → str_eq a b ≡ true
declared_as a b h = ground (arith, eq_iff a b)

module _ (declared : String) (bytes : List ℕ) where
  pub agrees-IsOfContent :
      agrees (sniff_media_type bytes) declared ≡ true → IsOfContent declared bytes
  unfolding sniff_media_type
  agrees-IsOfContent h = record {
    pdf = elim (Ascii-cases pdf_mark bytes) [
      | inr (t, e) ↦ inl e
      | inl (t, e) ↦ inr (ground (arith, eq_iff "application/pdf" declared))
    ];
    png = elim (Mark-cases png_mark bytes) [
      | inr (t, e) ↦ inl e
      | inl (t, e) ↦ inr (ground (arith, png_excludes bytes t, eq_iff "image/png" declared))
    ];
    jpeg = elim (Mark-cases jpeg_mark bytes) [
      | inr (t, e) ↦ inl e
      | inl (t, e) ↦ inr (ground (arith, jpeg_excludes bytes t, eq_iff "image/jpeg" declared))
    ];
    webp = elim (Ascii-cases riff_mark bytes) [
      | inr (t, e) ↦ inl e
      | inl (t, e) ↦ elim (Ascii-cases webp_mark (drop 8 bytes)) [
        | inr (u, f) ↦ inr (inl f)
        | inl (u, f) ↦
            inr (inr (ground (arith, riff_excludes bytes t, eq_iff "image/webp" declared)))
      ]
    ];
  }

  pub IsOfContent-agrees :
      IsOfContent declared bytes → agrees (sniff_media_type bytes) declared ≡ true
  unfolding sniff_media_type
  IsOfContent-agrees v = elim (Ascii-cases pdf_mark bytes) [
    | inl (t, e) ↦ elim v.pdf [
      | inl miss ↦ absurd (miss e)
      | inr d ↦ rw t (declared_as "application/pdf" declared d)
    ]
    | inr (t, e) ↦ elim (Mark-cases png_mark bytes) [
      | inl (u, f) ↦ elim v.png [
        | inl miss ↦ absurd (miss f)
        | inr d ↦ rw (t, u) (declared_as "image/png" declared d)
      ]
      | inr (u, f) ↦ elim (Mark-cases jpeg_mark bytes) [
        | inl (w, g) ↦ elim v.jpeg [
          | inl miss ↦ absurd (miss g)
          | inr d ↦ rw (t, u, w) (declared_as "image/jpeg" declared d)
        ]
        | inr (w, g) ↦ elim (Ascii-cases riff_mark bytes) [
          | inr (x, k) ↦ ground arith
          | inl (x, k) ↦ elim (Ascii-cases webp_mark (drop 8 bytes)) [
            | inr (y, l) ↦ ground arith
            | inl (y, l) ↦ elim v.webp [
              | inl miss ↦ absurd (miss k)
              | inr (inl miss) ↦ absurd (miss l)
              | inr (inr d) ↦ rw (t, u, w, x, y) (declared_as "image/webp" declared d)
            ]
          ]
        ]
      ]
    ]
  ]
