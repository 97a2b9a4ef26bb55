-- ===== src/Ingestion/Policy.antt =====
-- packages/ingestion/src/policy.ts: which attachments a message may have. A filename and a media type are
-- texts, the content a list of bytes.
pub mod Marks
pub mod Names
pub mod Accepted
use Prim.Native.Char.{code}
use Prim.Native.String
use infinite_context.Prelude.{
  ℕ, zero, suc, ◌+◌, ◌*◌, ◌%◌, String, Option, none, some, Bool, true, false, not, List, [], ◌∷◌,
  ◌&&◌, ◌||◌, ◌==◌, ltb, leb, if◌then◌else◌, length, sum_by, any, drop, str_eq, trim, utf16_length,
  Result, ok, err, ◌>>=◌, ◌>>◌, reject_if,
}

abbrev pub max_attachment_bytes : ℕ
max_attachment_bytes = 25 * 1_048_576

abbrev pub max_message_attachment_bytes : ℕ
max_message_attachment_bytes = 100 * 1_048_576

abbrev pub max_attachments_per_message : ℕ
max_attachments_per_message = 20

pub data Error : Type 0 where
  invalid_filename file_too_large unsupported_media_type media_type_mismatch message_too_large :
      Error

-- `normalize("NFC")`, `toLowerCase` and `extname` of the platform.
pub record Platform : Type 0 where
  pub nfc : String → String
  pub lower : String → String
  pub extension : String → String

unfoldable pub allowed_media_types : List String
allowed_media_types =
    "text/plain"
    ∷ ("text/markdown"
        ∷ ("application/json"
            ∷ ("text/csv"
                ∷ ("application/pdf"
                    ∷ ("image/png"
                        ∷ ("image/jpeg"
                            ∷ ("image/webp"
                                ∷ ("text/javascript"
                                    ∷ ("application/javascript"
                                        ∷ ("text/typescript"
                                            ∷ ("application/typescript"
                                                ∷ ("text/x-python"
                                                    ∷ ("text/x-c"
                                                        ∷ ("text/x-c++"
                                                            ∷ ("text/x-java-source"
                                                            ∷ ("text/x-go"
                                                            ∷ ("text/x-rust"
                                                            ∷ ("text/x-shellscript"
                                                            ∷ ("text/css"
                                                            ∷ ("text/html"
                                                            ∷ ("application/x-yaml"
                                                            ∷ ("text/yaml"
                                                            ∷ []))))))))))))))))))))))

unfoldable pub extension_media : List (String × String)
extension_media =
    (".txt", "text/plain")
    ∷ ((".md", "text/markdown")
        ∷ ((".mdx", "text/markdown")
            ∷ ((".json", "application/json")
                ∷ ((".csv", "text/csv")
                    ∷ ((".pdf", "application/pdf")
                        ∷ ((".png", "image/png")
                            ∷ ((".jpg", "image/jpeg")
                                ∷ ((".jpeg", "image/jpeg")
                                    ∷ ((".webp", "image/webp")
                                        ∷ ((".js", "text/javascript")
                                            ∷ ((".mjs", "text/javascript")
                                                ∷ ((".cjs", "text/javascript")
                                                    ∷ ((".jsx", "text/javascript")
                                                        ∷ ((".ts", "text/typescript")
                                                            ∷ ((".mts", "text/typescript")
                                                            ∷ ((".cts", "text/typescript")
                                                            ∷ ((".tsx", "text/typescript")
                                                            ∷ ((".py", "text/x-python")
                                                            ∷ ((".c", "text/x-c")
                                                            ∷ ((".h", "text/x-c")
                                                            ∷ ((".cc", "text/x-c++")
                                                            ∷ ((".cpp", "text/x-c++")
                                                            ∷ ((".hpp", "text/x-c++")
                                                            ∷ ((".java", "text/x-java-source")
                                                            ∷ ((".go", "text/x-go")
                                                            ∷ ((".rs", "text/x-rust")
                                                            ∷ ((".sh", "text/x-shellscript")
                                                            ∷ ((".bash", "text/x-shellscript")
                                                            ∷ ((".css", "text/css")
                                                            ∷ ((".html", "text/html")
                                                            ∷ ((".htm", "text/html")
                                                            ∷ ((".yaml", "text/yaml")
                                                            ∷ ((".yml", "text/yaml")
                                                            ∷ [])))))))))))))))))))))))))))))))))

unfoldable pub media_aliases : List (String × String)
media_aliases =
    ("application/x-javascript", "application/javascript")
    ∷ (("application/x-typescript", "application/typescript")
        ∷ (("text/json", "application/json") ∷ (("image/jpg", "image/jpeg") ∷ [])))

-- `map.get(key)`.
abbrev pub look_up : String → List (String × String) → Option String
look_up key [] = none
look_up key ((k, v) ∷ rest) = let later = look_up key rest in if str_eq k key then some v else later

abbrev pub or_else : Option String → String → String
or_else none d = d
or_else (some a) d = a

-- `value.split(";", 1)[0]`.
abbrev pub before_semicolon : String → String
before_semicolon String.[] = String.[]
before_semicolon (String.◌∷◌ c s) =
    let rest = before_semicolon s in if code c == 59 then String.[] else String.◌∷◌ c rest

unfoldable pub normalize_media_type : Platform → String → String
normalize_media_type p value =
    let base = p.lower (trim (before_semicolon value)) in or_else (look_up base media_aliases) base

unfoldable pub media_type_for_filename : Platform → String → Option String
media_type_for_filename p filename = look_up (p.lower (p.extension filename)) extension_media

-- Do the bytes begin with these?
abbrev pub begins_with : List ℕ → List ℕ → Bool
begins_with [] bytes = true
begins_with (x ∷ xs) [] = false
begins_with (x ∷ xs) (b ∷ bytes) = let rest = begins_with xs bytes in (b == x) && rest

-- The same of `toString("ascii")`, which drops the highest bit of each byte.
abbrev pub begins_with_ascii : List ℕ → List ℕ → Bool
begins_with_ascii [] bytes = true
begins_with_ascii (x ∷ xs) [] = false
begins_with_ascii (x ∷ xs) (b ∷ bytes) =
    let rest = begins_with_ascii xs bytes in (b % 128 == x) && rest

abbrev pub pdf_mark : List ℕ
pdf_mark = 37 ∷ (80 ∷ (68 ∷ (70 ∷ (45 ∷ []))))

abbrev pub png_mark : List ℕ
png_mark = 0x89 ∷ (0x50 ∷ (0x4e ∷ (0x47 ∷ (0x0d ∷ (0x0a ∷ (0x1a ∷ (0x0a ∷ [])))))))

abbrev pub jpeg_mark : List ℕ
jpeg_mark = 0xff ∷ (0xd8 ∷ (0xff ∷ []))

abbrev pub riff_mark : List ℕ
riff_mark = 82 ∷ (73 ∷ (70 ∷ (70 ∷ [])))

abbrev pub webp_mark : List ℕ
webp_mark = 87 ∷ (69 ∷ (66 ∷ (80 ∷ [])))

unfoldable pub sniff_media_type : List ℕ → Option String
sniff_media_type bytes =
    if begins_with_ascii pdf_mark bytes
    then some "application/pdf"
    else if begins_with png_mark bytes
    then some "image/png"
    else if begins_with jpeg_mark bytes
    then some "image/jpeg"
    else if begins_with_ascii riff_mark bytes && begins_with_ascii webp_mark (drop 8 bytes)
    then some "image/webp"
    else none

abbrev pub has_char : ℕ → String → Bool
has_char n String.[] = false
has_char n (String.◌∷◌ c s) = let rest = has_char n s in (code c == n) || rest

unfoldable pub is_safe_name : String → Bool
is_safe_name name =
    ltb 0 (utf16_length name)
    && leb (utf16_length name) 255
    && not (has_char 0 name)
    && not (has_char 47 name)
    && not (has_char 92 name)
    && not (str_eq name ".")
    && not (str_eq name "..")

unfoldable pub validate_filename : Platform → String → Result Error String
validate_filename p filename = do
  reject_if (not (is_safe_name (p.nfc filename))) invalid_filename
  ok (p.nfc filename)

abbrev is_pair : String → String → String → String → Bool
is_pair a b x y = str_eq a x && str_eq b y

unfoldable pub is_code_pair : String → String → Bool
is_code_pair a b =
    is_pair "application/javascript" "text/javascript" a b
    || is_pair "application/typescript" "text/typescript" a b
    || is_pair "text/yaml" "application/x-yaml" a b

-- May content that looks like `sniffed` be declared as `declared`?
abbrev pub agrees : Option String → String → Bool
agrees none declared = true
agrees (some t) declared = str_eq t declared

abbrev pub fits_extension : Option String → String → Bool
fits_extension none declared = true
fits_extension (some t) declared =
    str_eq t declared || is_code_pair declared t || is_code_pair t declared

abbrev pub is_allowed : String → Bool
is_allowed t = any (λ u. str_eq u t) allowed_media_types

unfoldable pub validate_attachment_policy :
    Platform → String → String → List ℕ → Result Error String
validate_attachment_policy p filename declared_media_type bytes = do
  name ← validate_filename p filename
  reject_if (ltb max_attachment_bytes (length bytes)) file_too_large
  let declared = normalize_media_type p declared_media_type
  reject_if (not (is_allowed declared)) unsupported_media_type
  reject_if (not (agrees (sniff_media_type bytes) declared)) media_type_mismatch
  reject_if (not (fits_extension (media_type_for_filename p filename) declared)) media_type_mismatch
  ok declared

unfoldable pub validate_message_attachments : List (List ℕ) → Result Error (Unit {0})
validate_message_attachments inputs = do
  reject_if (ltb max_attachments_per_message (length inputs)) message_too_large
  reject_if (ltb max_message_attachment_bytes (sum_by length inputs)) message_too_large
  ok tt
