-- ===== src/Memory/Claim.antt =====
-- `EvidenceClaim` and `ClaimRelation` of packages/memory/src/types.ts, with the `Claim` of
-- packages/contracts/src/index.ts that it extends, and the tests and values that
-- packages/memory/src/temporal.ts computes of one claim.
use infinite_context.Prelude.{
  ℕ, String, Option, none, some, Bool, true, false, List, ◌&&◌, leb, ltb, str_eq, trim,
  collapse_spaces, if◌then◌else◌,
}

pub data Status : Type 0 where
  current superseded conflicted historical expired : Status

pub data Role : Type 0 where
  user assistant tool system : Role

pub data SourceKind : Type 0 where
  conversation attachment workspace web tool_output : SourceKind

pub record Claim : Type 0 where
  pub id : String
  pub topic_id : Option String
  pub subject : String
  pub predicate : String
  pub value : String
  pub confidence : ℕ
  pub status : Status
  pub source_role : Role
  pub source_ids : List String
  pub valid_from : Option String
  pub valid_to : Option String
  pub observed_at : String
  pub freshness_expires_at : Option String
  pub recorded_at : String
  pub source_kind : SourceKind
  pub explicit_correction : Bool
  pub attributed_to : Option String
  pub extraction_version : String

pub data RelationType : Type 0 where
  supports contradicts refines supersedes derived_from duplicate_of : RelationType

pub record Relation : Type 0 where
  pub from_claim_id : String
  pub to_claim_id : String
  pub type : RelationType
  pub reason : String
  pub created_at : String

-- What the code takes from the platform: Unicode normalization and case folding, and `Date.parse`, in
-- milliseconds from the earliest date; `none` is NaN.
pub record Platform : Type 0 where
  pub nfkc : String → String
  pub lower : String → String
  pub parse_date : String → Option ℕ

module _ (p : Platform) where
  unfoldable pub normalize : String → String
  normalize value = p.lower (collapse_spaces (trim (p.nfkc value)))

  abbrev pub same_topic : Option String → Option String → Bool
  same_topic none none = true
  same_topic (some a) (some b) = str_eq a b
  same_topic _ _ = false

  unfoldable pub same_slot : Claim → Claim → Bool
  same_slot a b =
      same_topic a.topic_id b.topic_id
      && str_eq (normalize a.subject) (normalize b.subject)
      && str_eq (normalize a.predicate) (normalize b.predicate)

  unfoldable pub same_value : Claim → Claim → Bool
  same_value a b = str_eq (normalize a.value) (normalize b.value)

  abbrev pub start_of : Claim → String
  start_of c = elim c.valid_from [ none ↦ c.observed_at | some t ↦ t ]

  unfoldable pub time_of : Claim → Option ℕ
  time_of c = p.parse_date (start_of c)

  -- `Date.parse(a) <= Date.parse(b)` and `a > b`: false of NaN.
  abbrev pub at_most : Option ℕ → Option ℕ → Bool
  at_most (some a) (some b) = leb a b
  at_most _ _ = false

  abbrev pub later : Option ℕ → Option ℕ → Bool
  later (some a) (some b) = ltb b a
  later _ _ = false

  abbrev pub reached : Option String → String → Bool
  reached none now = false
  reached (some t) now = at_most (p.parse_date t) (p.parse_date now)

abbrev pub authority : Claim → ℕ
authority c = elim c.source_role [
  | user ↦ if c.explicit_correction then 500 else 400
  | tool ↦ 300
  | system ↦ 250
  | assistant ↦ 100
]

abbrev pub is_current : Status → Bool
is_current current = true
is_current _ = false

abbrev pub is_conflicted : Status → Bool
is_conflicted conflicted = true
is_conflicted _ = false

abbrev pub is_historical : Status → Bool
is_historical historical = true
is_historical _ = false

abbrev pub with_status : Claim → Status → Claim
with_status c s = record c { status = s }

abbrev pub relate : Claim → Claim → RelationType → String → String → Relation
relate a b type reason now = record {
  from_claim_id = a.id;
  to_claim_id = b.id;
  type = type;
  reason = reason;
  created_at = now;
}
