-- ===== src/Retrieval/Tests.antt =====
-- A packet of packages/retrieval/src/context.ts for a concrete request.
use infinite_context.Prelude.{◌+◌, ◌≤◌, none, true, false, [], ◌∷◌, ok, ◌≡◌, arith}
use infinite_context.Retrieval.Context.{
  Platform, PacketInput, Packet, Turn, user, assistant, conflict, build_context_packet, fill_packet,
}
use infinite_context.Retrieval.Context.Bounds.{Fits, build_context_packet-Fits}
use infinite_context.Retrieval.Context.WholeTurns.{HasWholeTurns, fill_packet-HasWholeTurns}

abbrev platform : Platform
platform = record { nfkc = λ text. text; lower = λ text. text }

abbrev question : Turn
question = record {
  id = "q";
  turn_index = 1;
  role = user;
  content = "When?";
  complete = true;
  token_count = 20;
}

abbrev answer : Turn
answer = record question { id = "a"; role = assistant; content = "Soon."; token_count = 30 }

abbrev pending : Turn
pending = record question { id = "p"; turn_index = 2; complete = false }

abbrev input : PacketInput
input = record {
  model_context_tokens = 400;
  instruction_tokens = 60;
  tool_definition_tokens = 40;
  recent_turns = question ∷ (answer ∷ (pending ∷ []));
  candidates =
      record {
        id = "c";
        excerpt = "The launch is in May.";
        fused_score = 7;
        rerank_score = none;
        raw_source = true;
        token_count = 80;
        selected = false;
      }
      ∷ [];
  notices = record { kind = conflict; text = "Two dates"; token_count = 10 } ∷ [];
  minimum_complete_turns = none;
}

build_context_packet-Fits_example :
    (k : Packet) × (build_context_packet platform input ≡ ok k)
    × Fits 100 200 k
    × (k.used_tokens + k.reserved_output_tokens ≤ k.model_context_tokens)
build_context_packet-Fits_example =
    build_context_packet-Fits platform input (omega arith) (omega arith)

fill_packet-HasWholeTurns_example :
    HasWholeTurns
      (question ∷ (answer ∷ (pending ∷ [])))
      (fill_packet platform input 100 100 200).recent_turns
fill_packet-HasWholeTurns_example = fill_packet-HasWholeTurns platform input 100 100 200
