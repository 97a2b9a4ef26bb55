-- ===== src/Retrieval/Context/Bounds.antt =====
-- The token counts of packages/retrieval/src/context.ts.
use infinite_context.Prelude.{
  ℕ, ◌+◌, ◌-◌, ◌*◌, ◌/◌, ◌≤◌, ◌<◌, not, List, [], ◌∷◌, ◌++◌, map, min, keep, take, sum_by,
  sum_by-append, sum_by-sort, ascending, ok, ◌≡◌, refl, arith,
}
use infinite_context.Retrieval.Context.{
  Turn, Notice, Candidate, PacketInput, Packet, Platform, take_fitting, group_tokens, Group,
  turns_of, fill_packet, build_context_packet, complete_turn_groups, default_turns, unique_evidence,
  select, by_index, has_index,
}

-- What is taken and what remains is what there was.
take_fitting_sum :
    {A : Type 0} (tokens : A → ℕ) (n : ℕ) (xs : List A)
    → sum_by tokens (take_fitting tokens n xs).chosen + (take_fitting tokens n xs).remaining ≡ n
unfolding take_fitting
take_fitting_sum tokens n [] = omega arith
take_fitting_sum tokens n (x ∷ xs) =
    ground (arith, take_fitting_sum tokens (n - tokens x) xs, take_fitting_sum tokens n xs)

abbrev turn_tokens : Turn → ℕ
turn_tokens t = t.token_count

sum_by-turns_of : (gs : List Group) → sum_by turn_tokens (turns_of gs) ≡ sum_by group_tokens gs
sum_by-turns_of [] = refl
sum_by-turns_of (g ∷ gs) =
    omega (arith, sum_by-append {0} turn_tokens g.turns (turns_of gs), sum_by-turns_of gs)

sum_by-select :
    (cs : List Candidate)
    → sum_by (λ c. c.token_count) (map select cs) ≡ sum_by (λ c. c.token_count) cs
sum_by-select [] = refl
sum_by-select (c ∷ cs) = omega (arith, sum_by-select cs)

-- What a packet for `available` tokens beside `fixed` ones promises of its counts.
pub record Fits (fixed available : ℕ) (k : Packet) : Type 0 where
  pub used : k.used_tokens ≤ fixed + available
  pub counted :
      k.used_tokens
      ≡ fixed
        + sum_by (λ t. t.token_count) k.recent_turns
        + sum_by (λ c. c.token_count) k.evidence
        + sum_by (λ n. n.token_count) k.notices
  pub share : 100 * sum_by (λ c. c.token_count) k.evidence ≤ 45 * available

fill_packet-Fits :
    (p : Platform) (i : PacketInput) (reserved fixed available : ℕ)
    → Fits fixed available (fill_packet p i reserved fixed available)
unfolding fill_packet
fill_packet-Fits p i reserved fixed available =
    let all = complete_turn_groups i.recent_turns in
    let candidates = unique_evidence p i.candidates in
    let required =
      take_fitting group_tokens available (take (default_turns i.minimum_complete_turns) all) in
    let notices = take_fitting (λ (n : Notice). n.token_count) required.remaining i.notices in
    let capacity = min notices.remaining (available * 45 / 100) in
    let evidence = take_fitting (λ (c : Candidate). c.token_count) capacity candidates in
    let selected = by_index (turns_of required.chosen) in
    let left = notices.remaining - (capacity - evidence.remaining) in
    let older = keep (λ (g : Group). not (has_index g.index selected)) all in
    let a =
      take_fitting_sum group_tokens available (take (default_turns i.minimum_complete_turns) all) in
    let b = take_fitting_sum (λ (n : Notice). n.token_count) required.remaining i.notices in
    let c = take_fitting_sum (λ (c : Candidate). c.token_count) capacity candidates in
    let d = take_fitting_sum group_tokens left older in
    let e =
      sum_by-sort (ascending (λ (t : Turn). t.turn_index)) turn_tokens (turns_of required.chosen) in
    let f = sum_by-turns_of required.chosen in
    let g = sum_by-turns_of (take_fitting group_tokens left older).chosen in
    let h =
      sum_by-append {0} turn_tokens selected
        (turns_of (take_fitting group_tokens left older).chosen) in
    let k =
      sum_by-sort (ascending (λ (t : Turn). t.turn_index)) turn_tokens
        (selected ++ turns_of (take_fitting group_tokens left older).chosen) in
    let m = sum_by-select evidence.chosen in
    record {
      used = omega (arith, a, b, c, d, e, f, g, h, k, m);
      counted = omega (arith, c, m);
      share = omega (arith, c, m);
    }

-- If the model context is positive and the instructions fit the input's share of it, there is a packet:
-- the last check never fails. Its tokens are those of its parts, stay within the input's share, and with the reserved output
-- within the model context; the evidence takes at most 45 percent of what the instructions leave.
pub build_context_packet-Fits :
    (p : Platform) (i : PacketInput)
    → let capacity = i.model_context_tokens - i.model_context_tokens / 4 in
      let fixed = i.instruction_tokens + i.tool_definition_tokens in
      0 < i.model_context_tokens
      → fixed ≤ capacity
      → (k : Packet) × (build_context_packet p i ≡ ok k)
        × Fits fixed (capacity - fixed) k
        × (k.used_tokens + k.reserved_output_tokens ≤ k.model_context_tokens)
unfolding build_context_packet
build_context_packet-Fits p i positive fits =
    let capacity = i.model_context_tokens - i.model_context_tokens / 4 in
    let fixed = i.instruction_tokens + i.tool_definition_tokens in
    let k = fill_packet p i (i.model_context_tokens / 4) fixed (capacity - fixed) in
    let v : Fits fixed (capacity - fixed) k =
      fill_packet-Fits p i (i.model_context_tokens / 4) fixed (capacity - fixed) in
    (k, ground arith, v, unfold fill_packet in omega (arith, v.used))
