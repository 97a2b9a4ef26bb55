-- ===== src/Ingestion/Tests.antt =====
-- Chunks of packages/ingestion/src/chunking.ts of a concrete text, and an attachment for
-- packages/ingestion/src/policy.ts.
use infinite_context.Prelude.{ℕ, List, none, [], ◌∷◌, ◌≡◌, arith}
use infinite_context.Prelude.{◌≤◌, ◌↔◌, ok, length, sum_by}
use infinite_context.Ingestion.Policy.{
  Platform, validate_attachment_policy, validate_message_attachments, max_attachments_per_message,
  max_message_attachment_bytes,
}
use infinite_context.Ingestion.Policy.Accepted.{
  IsAccepted, validate_attachment_policy-IsAccepted, validate_message_attachments_iff,
}
use infinite_context.Ingestion.Chunking.{Text, Chunker, newline, chunk_lines}
use infinite_context.Ingestion.Chunking.Restore.{restored, restored-chunk_lines}
use infinite_context.Ingestion.Chunking.Sizes.{IsNumbered, chunk_lines-IsNumbered}

abbrev chunker : Chunker
chunker = record {
  sha256 = λ text. "";
  parser_version = "text-v1";
  base_line = none;
  base_symbol = none;
  target = 4;
  maximum = 5;
}

-- Three lines, of 2, 7 and 1 code units.
abbrev text : Text
text = 97 ∷ (98 ∷ (10 ∷ (97 ∷ (98 ∷ (99 ∷ (100 ∷ (101 ∷ (102 ∷ (103 ∷ (10 ∷ (97 ∷ [])))))))))))

restored-chunk_lines_example : restored (chunk_lines chunker text) ≡ newline ∷ text
restored-chunk_lines_example = restored-chunk_lines chunker text (omega arith) (omega arith)

chunk_lines-IsNumbered_example : IsNumbered chunker 0 (chunk_lines chunker text)
chunk_lines-IsNumbered_example = chunk_lines-IsNumbered chunker text

abbrev platform : Platform
platform = record { nfc = λ name. name; lower = λ text. text; extension = λ name. ".pdf" }

-- The first bytes of a PDF file.
abbrev pdf : List ℕ
pdf = 37 ∷ (80 ∷ (68 ∷ (70 ∷ (45 ∷ (49 ∷ [])))))

validate_attachment_policy-IsAccepted_example :
    (validate_attachment_policy platform "paper.pdf" "application/pdf; q=1" pdf
      ≡ ok "application/pdf")
    ↔ IsAccepted platform "paper.pdf" "application/pdf; q=1" pdf "application/pdf"
validate_attachment_policy-IsAccepted_example =
    validate_attachment_policy-IsAccepted platform "paper.pdf" "application/pdf; q=1" pdf
      "application/pdf"

validate_message_attachments_iff_example :
    (validate_message_attachments (pdf ∷ (pdf ∷ [])) ≡ ok tt) ↔ (
      (length (pdf ∷ (pdf ∷ [])) ≤ max_attachments_per_message)
      × (sum_by length (pdf ∷ (pdf ∷ [])) ≤ max_message_attachment_bytes))
validate_message_attachments_iff_example = validate_message_attachments_iff (pdf ∷ (pdf ∷ []))
