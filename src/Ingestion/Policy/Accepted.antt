-- ===== src/Ingestion/Policy/Accepted.antt =====
-- What packages/ingestion/src/policy.ts accepts.
use infinite_context.Prelude.{
  ℕ, ◌≤◌, ◌↔◌, String, List, ◌≡◌, arith, ok, length, sum_by, subst, ap, sym, ◌∙◌, trim,
}
use infinite_context.Ingestion.Policy.{
  Platform, max_attachment_bytes, max_message_attachment_bytes, max_attachments_per_message,
  normalize_media_type, media_type_for_filename, validate_filename, validate_attachment_policy,
  validate_message_attachments, allowed_media_types, before_semicolon,
}
use infinite_context.Ingestion.Policy.Marks.{IsOfContent, agrees-IsOfContent, IsOfContent-agrees}
use infinite_context.Ingestion.Policy.Names.{
  IsSafe, is_safe_name-IsSafe, IsSafe-is_safe_name, IsListed, any-IsListed, IsListed-any,
  IsOfExtension, fits-IsOfExtension, IsOfExtension-fits, IsMeant, look_up-IsMeant, IsMeant-look_up,
}

-- What makes an attachment acceptable as a media type, given what was declared.
pub record IsAccepted (p : Platform) (filename declared : String) (bytes : List ℕ) (t : String)
    : Type 0 where
  pub safe : IsSafe (p.nfc filename)
  pub size : length bytes ≤ max_attachment_bytes
  pub meant : IsMeant (p.lower (trim (before_semicolon declared))) t
  pub allowed : IsListed t allowed_media_types
  pub content : IsOfContent t bytes
  pub extension : IsOfExtension (media_type_for_filename p filename) t

module _ (p : Platform) (filename declared : String) (bytes : List ℕ) where
  passed-IsAccepted :
      validate_attachment_policy p filename declared bytes ≡ ok (normalize_media_type p declared)
      → IsAccepted p filename declared bytes (normalize_media_type p declared)
  unfolding validate_attachment_policy validate_filename normalize_media_type
  passed-IsAccepted h =
      let t = normalize_media_type p declared in
      record {
        safe = is_safe_name-IsSafe (p.nfc filename) (ground arith);
        size = ground arith;
        meant = look_up-IsMeant (p.lower (trim (before_semicolon declared)));
        allowed = any-IsListed t allowed_media_types (ground arith);
        content = agrees-IsOfContent t bytes (ground arith);
        extension = fits-IsOfExtension (media_type_for_filename p filename) t (ground arith);
      }

  IsAccepted-passed :
      (t : String)
      → IsAccepted p filename declared bytes t
      → normalize_media_type p declared ≡ t
      → validate_attachment_policy p filename declared bytes ≡ ok t
  unfolding validate_attachment_policy validate_filename
  IsAccepted-passed t v e = ground (
    arith,
    e,
    IsSafe-is_safe_name (p.nfc filename) v.safe,
    v.size,
    IsListed-any t allowed_media_types v.allowed,
    IsOfContent-agrees t bytes v.content,
    IsOfExtension-fits (media_type_for_filename p filename) t v.extension,
  )

  answer-normalized :
      (t : String)
      → validate_attachment_policy p filename declared bytes ≡ ok t
      → normalize_media_type p declared ≡ t
  unfolding validate_attachment_policy
  answer-normalized t h = ground arith

-- An attachment passes as a media type exactly if its name has 1 to 255 code units, none of them NUL, `/` or `\`,
-- and is neither `.` nor `..`, it has at most 25 MB, the type is the declared one without its parameters and
-- aliases and is allowed, content with the mark of a PDF, PNG, JPEG or WebP file is of that type, and a known
-- extension is of the type or its twin.
pub validate_attachment_policy-IsAccepted :
    (p : Platform) (filename declared : String) (bytes : List ℕ) (t : String)
    → (validate_attachment_policy p filename declared bytes ≡ ok t)
      ↔ IsAccepted p filename declared bytes t
unfolding normalize_media_type
validate_attachment_policy-IsAccepted p filename declared bytes t = (
  λ h.
      let e = answer-normalized p filename declared bytes t h in
      subst (IsAccepted p filename declared bytes) e
        (passed-IsAccepted p filename declared bytes (h ∙ ap ok (sym e))),
  λ v.
      IsAccepted-passed p filename declared bytes t v
        (IsMeant-look_up (p.lower (trim (before_semicolon declared))) t v.meant),
)

-- The attachments of a message pass exactly if there are at most 20, of at most 100 MB together.
pub validate_message_attachments_iff :
    (inputs : List (List ℕ))
    → (validate_message_attachments inputs ≡ ok tt) ↔ (
        (length inputs ≤ max_attachments_per_message)
        × (sum_by length inputs ≤ max_message_attachment_bytes))
unfolding validate_message_attachments
validate_message_attachments_iff inputs = (λ h. ground arith, λ v. ground (arith, v))
