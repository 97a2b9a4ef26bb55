-- ===== src/Memory/Temporal/Selection.antt =====
-- Freshness, selection by intent and the removal of sources in packages/memory/src/temporal.ts.
use infinite_context.Prelude.{
  ℕ, ◌+◌, ◌<◌, String, none, some, Bool, true, false, not, Bool-cases, inl, inr, List, [], ◌∷◌, ◌≡◌,
  ◌↔◌, refl, arith, All, All-keep, All-keep_kept, length, subst, if◌then◌else◌, length-map, count,
  keep,
}
use infinite_context.Memory.Claim.{Claim, Platform, is_current, is_conflicted, reached}
use infinite_context.Memory.Temporal.{
  refresh, apply_freshness, select_claims, Intent, now_only, past_only, all, is_active,
  remove_provenance, Removal, is_empty,
}

module _ (p : Platform) where
  -- Current in name and stale at the time.
  abbrev pub is_stale : String → Claim → Bool
  is_stale now c = elim (is_current c.status) [
    | true ↦ reached p c.freshness_expires_at now
    | false ↦ false
  ]

  apply_freshness-fresh :
      (cs : List Claim) (now : String)
      → All (λ c. is_stale now c ≡ false) (apply_freshness p cs now)
  unfolding apply_freshness
  apply_freshness-fresh [] now = tt
  apply_freshness-fresh (c ∷ cs) now = (ground arith, apply_freshness-fresh cs now)

  length-apply_freshness :
      (cs : List Claim) (now : String) → length (apply_freshness p cs now) ≡ length cs
  unfolding apply_freshness
  length-apply_freshness cs now = length-map (refresh p now) cs

  count-apply_freshness :
      (cs : List Claim) (now : String)
      → count (λ c. is_conflicted c.status) (apply_freshness p cs now)
        ≡ count (λ c. is_conflicted c.status) cs
  unfolding apply_freshness
  count-apply_freshness [] now = refl
  count-apply_freshness (c ∷ cs) now = ground (arith, count-apply_freshness cs now)

  -- Whatever the intent, no claim that is selected is current past its freshness.
  pub select_claims-fresh :
      (cs : List Claim) (intent : Intent) (now : String)
      → All (λ c. is_stale now c ≡ false) (select_claims p cs intent now)
  unfolding select_claims
  select_claims-fresh cs all now = apply_freshness-fresh cs now
  select_claims-fresh cs now_only now =
      All-keep_kept _ is_active (apply_freshness p cs now) (apply_freshness-fresh cs now)
  select_claims-fresh cs past_only now =
      All-keep_kept _ (λ c. not (is_current c.status)) (apply_freshness p cs now)
        (apply_freshness-fresh cs now)

  keep_counts :
      (cs : List Claim)
      → length (keep is_active cs) + length (keep (λ c. not (is_current c.status)) cs)
        ≡ length cs + count (λ c. is_conflicted c.status) cs
  keep_counts [] = refl
  keep_counts (c ∷ cs) = ground (arith, keep_counts cs)

  -- The current and the historical selection together hold every claim, and the conflicted ones twice.
  pub select_claims_cover :
      (cs : List Claim) (now : String)
      → length (select_claims p cs now_only now) + length (select_claims p cs past_only now)
        ≡ length cs + count (λ c. is_conflicted c.status) cs
  unfolding select_claims
  select_claims_cover cs now = omega (
    arith,
    keep_counts (apply_freshness p cs now),
    length-apply_freshness cs now,
    count-apply_freshness cs now,
  )

keep_partition :
    (q : String → Bool) (ids : List String)
    → length (keep (λ id. not (q id)) ids) + length (keep q ids) ≡ length ids
keep_partition q [] = refl
keep_partition q (id ∷ ids) = ground (arith, keep_partition q ids)

-- What is retained of a claim when `n` of its sources are removed.
abbrev pub IsRetained : Claim → (String → Bool) → ℕ → Claim → Type 0
IsRetained c removed n d =
    (d ≡ record c { source_ids = d.source_ids })
    × All (λ id. not (removed id) ≡ true) d.source_ids
    × (0 < length d.source_ids)
    × (length d.source_ids + n ≡ length c.source_ids)

kept-IsRetained :
    (c : Claim) (removed : String → Bool) (n : ℕ) (kept : List String) (d : Claim)
    → All (λ id. not (removed id) ≡ true) kept
    → length kept + n ≡ length c.source_ids
    → (if is_empty kept then none else some (record c { source_ids = kept })) ≡ some d
    → IsRetained c removed n d
kept-IsRetained c removed n [] d h l e = absurd (cc e)
kept-IsRetained c removed n (x ∷ xs) d h l e =
    let same : record c { source_ids = x ∷ xs } ≡ d = cc e in
    subst (IsRetained c removed n) same (refl, h, omega arith, l)

none_kept :
    (removed : String → Bool) (ids : List String)
    → is_empty (keep (λ id. not (removed id)) ids) ≡ true
    → All (λ id. removed id ≡ true) ids
none_kept removed [] h = tt
none_kept removed (id ∷ ids) h = elim (Bool-cases (removed id)) [
  | inl t ↦ (t, none_kept removed ids (ground (arith, t)))
  | inr t ↦ absurd (ground (arith, t))
]

nothing_kept :
    (removed : String → Bool) (ids : List String)
    → All (λ id. removed id ≡ true) ids
    → is_empty (keep (λ id. not (removed id)) ids) ≡ true
nothing_kept removed [] h = refl
nothing_kept removed (id ∷ ids) h = rw h.0 (nothing_kept removed ids h.1)

emptied :
    (c : Claim) (kept : List String)
    → (if is_empty kept then none else some (record c { source_ids = kept })) ≡ none
    → is_empty kept ≡ true
emptied c [] h = refl
emptied c (x ∷ xs) h = absurd (ground arith)

pub record IsRemoved (c : Claim) (removed : String → Bool) (r : Removal) : Type 0 where
  pub removes : r.removed_claim ≡ true ↔ r.retained ≡ none
  pub loses_all : r.retained ≡ none ↔ All (λ id. removed id ≡ true) c.source_ids
  pub strips : All (λ id. removed id ≡ true) r.removed_ids
  pub keeps : (d : Claim) → r.retained ≡ some d → IsRetained c removed (length r.removed_ids) d

-- A claim goes exactly when each of its sources is removed, and exactly then it is reported as removed. What is
-- retained has sources, none of them removed, and is otherwise unchanged; its sources and the removed ones
-- are together as many as those of the claim.
pub remove_provenance-IsRemoved :
    (c : Claim) (removed : String → Bool) → IsRemoved c removed (remove_provenance c removed)
unfolding remove_provenance
remove_provenance-IsRemoved c removed = record {
  removes = (λ h. ground arith, λ h. ground arith);
  loses_all = (
    λ h. none_kept removed c.source_ids (emptied c _ h),
    λ h. rw (nothing_kept removed c.source_ids h) refl,
  );
  strips = All-keep removed c.source_ids;
  keeps = λ d h.
      kept-IsRetained c removed (length (keep removed c.source_ids))
        (keep (λ id. not (removed id)) c.source_ids) d
        (All-keep (λ id. not (removed id)) c.source_ids) (keep_partition removed c.source_ids) h;
}
