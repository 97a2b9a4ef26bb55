-- ===== src/Retrieval/Context.antt =====
-- packages/retrieval/src/context.ts: the packet of turns, notices and evidence for one model call.
pub mod Bounds
pub mod Groups
pub mod Selection
pub mod WholeTurns
use infinite_context.Prelude.{
  ℕ, ◌+◌, ◌-◌, ◌*◌, ◌/◌, String, Option, none, some, Bool, true, false, not, List, [], ◌∷◌, ◌++◌,
  map, ◌&&◌, ◌||◌, min, ltb, leb, ◌==◌, keep, any, take, sum_by, sort, ascending, descending,
  str_eq, trim, collapse_spaces, Result, ok, err, ◌>>=◌, ◌>>◌, reject_if, if◌then◌else◌,
}

pub data Role : Type 0 where
  user assistant tool system : Role

pub record Turn : Type 0 where
  pub id : String
  pub turn_index : ℕ
  pub role : Role
  pub content : String
  pub complete : Bool
  pub token_count : ℕ

pub data NoticeKind : Type 0 where
  conflict missing_evidence stale : NoticeKind

pub record Notice : Type 0 where
  pub kind : NoticeKind
  pub text : String
  pub token_count : ℕ

-- What the packet reads of a `RankedCandidate` and its document. Scores are only compared.
pub record Candidate : Type 0 where
  pub id : String
  pub excerpt : String
  pub fused_score : ℕ
  pub rerank_score : Option ℕ
  pub raw_source : Bool
  pub token_count : ℕ
  pub selected : Bool

pub record PacketInput : Type 0 where
  pub model_context_tokens : ℕ
  pub instruction_tokens : ℕ
  pub tool_definition_tokens : ℕ
  pub recent_turns : List Turn
  pub candidates : List Candidate
  pub notices : List Notice
  pub minimum_complete_turns : Option ℕ

pub data Reason : Type 0 where
  turn_too_large evidence_budget : Reason

pub record Exclusion : Type 0 where
  pub id : String
  pub reason : Reason

pub record Packet : Type 0 where
  pub model_context_tokens : ℕ
  pub reserved_output_tokens : ℕ
  pub instruction_tokens : ℕ
  pub tool_definition_tokens : ℕ
  pub recent_turns : List Turn
  pub evidence : List Candidate
  pub notices : List Notice
  pub used_tokens : ℕ
  pub evidence_tokens : ℕ
  pub recent_turn_tokens : ℕ
  pub exclusions : List Exclusion

pub data Error : Type 0 where
  context_not_positive instructions_too_large packet_too_large : Error

-- Unicode normalization and case folding of the platform.
pub record Platform : Type 0 where
  pub nfkc : String → String
  pub lower : String → String

unfoldable pub fingerprint : Platform → Candidate → String
fingerprint p c = p.lower (trim (collapse_spaces (p.nfkc c.excerpt)))

abbrev pub same : Bool → Bool → Bool
same true b = b
same false b = not b

-- Does `c` take the place of `previous`, which has its fingerprint?
unfoldable pub is_preferred : Candidate → Candidate → Bool
is_preferred c previous =
    (c.raw_source && not previous.raw_source)
    || (same c.raw_source previous.raw_source && ltb previous.fused_score c.fused_score)

-- The map by fingerprints, in the order of insertion.
unfoldable pub put_unique : Platform → Candidate → List Candidate → List Candidate
put_unique p c [] = c ∷ []
put_unique p c (d ∷ ds) =
    let rest = put_unique p c ds in
    if str_eq (fingerprint p d) (fingerprint p c)
    then (if is_preferred c d then c ∷ ds else d ∷ ds)
    else d ∷ rest

unfoldable pub unique_from : Platform → List Candidate → List Candidate → List Candidate
unique_from p seen [] = seen
unique_from p seen (c ∷ cs) = unique_from p (put_unique p c seen) cs

abbrev pub score : Candidate → ℕ
score c = elim c.rerank_score [ none ↦ c.fused_score | some s ↦ s ]

unfoldable pub unique_evidence : Platform → List Candidate → List Candidate
unfolding unique_from put_unique
unique_evidence p cs = sort (descending score) (unique_from p [] cs)

pub record Group : Type 0 where
  pub index : ℕ
  pub turns : List Turn

unfoldable pub add_turn : Turn → List Group → List Group
add_turn t [] = record { index = t.turn_index; turns = t ∷ [] } ∷ []
add_turn t (g ∷ gs) =
    let rest = add_turn t gs in
    if g.index == t.turn_index then record g { turns = g.turns ++ t ∷ [] } ∷ gs else g ∷ rest

unfoldable pub group_turns : List Group → List Turn → List Group
group_turns gs [] = gs
group_turns gs (t ∷ ts) = group_turns (add_turn t gs) ts

abbrev pub is_complete : Group → Bool
is_complete g = not (any (λ t. not t.complete) g.turns)

-- A group always has a turn, so the test for an empty group is left out.
unfoldable pub complete_turn_groups : List Turn → List Group
unfolding group_turns add_turn
complete_turn_groups ts = sort (descending (λ g. g.index)) (keep is_complete (group_turns [] ts))

abbrev pub group_tokens : Group → ℕ
group_tokens g = sum_by (λ t. t.token_count) g.turns

-- The loops that take what fits: the taken, the left out, and the tokens that remain.
pub record Taken (A : Type 0) : Type 0 where
  pub chosen : List A
  pub rejected : List A
  pub remaining : ℕ

module _ {A : Type 0} (tokens : A → ℕ) where
  unfoldable pub take_fitting : ℕ → List A → Taken A
  take_fitting remaining [] = record { chosen = []; rejected = []; remaining = remaining }
  take_fitting remaining (a ∷ as') =
      let fits = leb (tokens a) remaining in
      let rest = take_fitting (if fits then remaining - tokens a else remaining) as' in
      if fits
      then record rest { chosen = a ∷ rest.chosen }
      else record rest { rejected = a ∷ rest.rejected }

abbrev pub turns_of : List Group → List Turn
turns_of [] = []
turns_of (g ∷ gs) = g.turns ++ turns_of gs

abbrev pub has_index : ℕ → List Turn → Bool
has_index i = any (λ t. t.turn_index == i)

abbrev pub default_turns : Option ℕ → ℕ
default_turns none = 4
default_turns (some n) = n

abbrev pub by_index : List Turn → List Turn
by_index = sort (ascending (λ t. t.turn_index))

abbrev pub select : Candidate → Candidate
select c = record c { selected = true }

abbrev excluded_turn : Turn → Exclusion
excluded_turn t = record { id = t.id; reason = turn_too_large }

abbrev excluded_evidence : Candidate → Exclusion
excluded_evidence c = record { id = c.id; reason = evidence_budget }

-- The packet for `available` tokens, beside the fixed ones.
unfoldable pub fill_packet : Platform → PacketInput → ℕ → ℕ → ℕ → Packet
unfolding take_fitting
fill_packet p i reserved fixed available =
    let all = complete_turn_groups i.recent_turns in
    let required =
      take_fitting group_tokens available (take (default_turns i.minimum_complete_turns) all) in
    let notices = take_fitting (λ n. n.token_count) required.remaining i.notices in
    let capacity = min notices.remaining (available * 45 / 100) in
    let evidence = take_fitting (λ c. c.token_count) capacity (unique_evidence p i.candidates) in
    let evidence_tokens = capacity - evidence.remaining in
    let selected = by_index (turns_of required.chosen) in
    let older =
      take_fitting group_tokens (notices.remaining - evidence_tokens)
        (keep (λ g. not (has_index g.index selected)) all) in
    let turns = by_index (selected ++ turns_of older.chosen) in
    let recent = sum_by (λ t. t.token_count) turns in
    record {
      model_context_tokens = i.model_context_tokens;
      reserved_output_tokens = reserved;
      instruction_tokens = i.instruction_tokens;
      tool_definition_tokens = i.tool_definition_tokens;
      recent_turns = turns;
      evidence = map select evidence.chosen;
      notices = notices.chosen;
      used_tokens = fixed + recent + evidence_tokens + sum_by (λ n. n.token_count) notices.chosen;
      evidence_tokens = evidence_tokens;
      recent_turn_tokens = recent;
      exclusions =
          map excluded_turn (turns_of required.rejected) ++ map excluded_evidence evidence.rejected;
    }

unfoldable pub build_context_packet : Platform → PacketInput → Result Error Packet
build_context_packet p i = do
  let reserved = i.model_context_tokens / 4
  let capacity = i.model_context_tokens - reserved
  let fixed = i.instruction_tokens + i.tool_definition_tokens
  reject_if (i.model_context_tokens == 0) context_not_positive
  reject_if (ltb capacity fixed) instructions_too_large
  let packet = fill_packet p i reserved fixed (capacity - fixed)
  reject_if (ltb capacity packet.used_tokens) packet_too_large
  ok packet
