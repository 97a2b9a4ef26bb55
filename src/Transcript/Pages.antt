-- ===== src/Transcript/Pages.antt =====
-- The pages of `listEvents` in packages/database/src/index.ts.
use mathlib.Core.List.{reverse, reverse-cons, reverse-reverse}
use infinite_context.Prelude.{
  ℕ, ◌+◌, ◌-◌, ◌≤◌, ◌<◌, suc, zero, Option, none, some, Bool, List, [], ◌∷◌, ◌++◌, ◌≡◌, refl, arith,
  Bool-cases, inl, inr, ap, sym, ◌∙◌, subst, keep, take, drop, length, length-append, sort, insert,
  ascending, descending, All, All-append, All-keep_kept, leb,
}
use infinite_context.Transcript.Tables.{Event, Vault}
use infinite_context.Transcript.Events.{
  ListOptions, is_listed, fetch, list_events, page_limit, sequence_of,
}
use infinite_context.Transcript.Changes.{IsNumbered}
use infinite_context.Transcript.History.{Later, new_vault}
use infinite_context.Transcript.Order.{vault-IsOrdered}

keep-IsNumbered : (p : Event → Bool) (es : List Event) → IsNumbered es → IsNumbered (keep p es)
keep-IsNumbered p [] n = tt
keep-IsNumbered p (e ∷ es) n = elim (Bool-cases (p e)) [
  | inl t ↦ rw t (All-keep_kept _ p es n.0, keep-IsNumbered p es n.1)
  | inr t ↦ rw t (keep-IsNumbered p es n.1)
]

insert_last :
    (e : Event) (es : List Event)
    → All (λ f. e.sequence < f.sequence) es
    → insert (descending sequence_of) e es ≡ es ++ e ∷ []
insert_last e [] v = refl
insert_last e (f ∷ es) v = ground (arith, v.0, insert_last e es v.1)

All-reverse : (P : Event → Type 0) (es : List Event) → All P es → All P (reverse es)
All-reverse P [] v = tt
All-reverse P (e ∷ es) v =
    subst (All P) (sym (reverse-cons e es))
      (All-append P (reverse es) (e ∷ []) (All-reverse P es v.1) (v.0, tt))

sort-descending : (es : List Event) → IsNumbered es → sort (descending sequence_of) es ≡ reverse es
sort-descending [] n = refl
sort-descending (e ∷ es) n =
    ap (insert (descending sequence_of) e) (sort-descending es n.1)
    ∙ insert_last e (reverse es) (All-reverse _ es n.0)
    ∙ sym (reverse-cons e es)

insert_first :
    (e : Event) (es : List Event)
    → All (λ f. e.sequence < f.sequence) es
    → insert (ascending sequence_of) e es ≡ e ∷ es
insert_first e [] v = refl
insert_first e (f ∷ es) v = ground (arith, v.0)

sort-ascending : (es : List Event) → IsNumbered es → sort (ascending sequence_of) es ≡ es
sort-ascending [] n = refl
sort-ascending (e ∷ es) n =
    ap (insert (ascending sequence_of) e) (sort-ascending es n.1) ∙ insert_first e es n.0

length-reverse : (xs : List Event) → length (reverse xs) ≡ length xs
length-reverse [] = refl
length-reverse (x ∷ xs) =
    ap length (reverse-cons x xs)
    ∙ omega (arith, length-append (reverse xs) (x ∷ []), length-reverse xs)

take-append_le : (n : ℕ) (xs ys : List Event) → n ≤ length xs → take n (xs ++ ys) ≡ take n xs
take-append_le zero xs ys h = refl
take-append_le (suc n) [] ys h = absurd (omega arith)
take-append_le (suc n) (x ∷ xs) ys h = ap (λ r. x ∷ r) (take-append_le n xs ys (omega arith))

take_all : (n : ℕ) (xs : List Event) → length xs ≤ n → take n xs ≡ xs
take_all zero [] h = refl
take_all zero (x ∷ xs) h = absurd (omega arith)
take_all (suc n) [] h = refl
take_all (suc n) (x ∷ xs) h = ap (λ r. x ∷ r) (take_all n xs (omega arith))

-- The last `n` entries.
abbrev pub last : ℕ → List Event → List Event
last n es = drop (length es - n) es

drop_nil : (n : ℕ) → drop {A = Event} n [] ≡ []
drop_nil zero = refl
drop_nil (suc n) = refl

reverse-take : (n : ℕ) (es : List Event) → reverse (take n (reverse es)) ≡ last n es
reverse-take n [] = ap reverse (take_all n [] (omega arith)) ∙ sym (drop_nil (0 - n))
reverse-take n (e ∷ es) = elim (Bool-cases (leb n (length es))) [
  | inl t ↦
      let less : suc (length es) - n ≡ suc (length es - n) = ground arith in
      ap (λ r. reverse (take n r)) (reverse-cons e es)
      ∙ ap reverse (take-append_le n (reverse es) (e ∷ []) (ground (arith, length-reverse es)))
      ∙ reverse-take n es
      ∙ ap (λ k. drop k (e ∷ es)) (sym less)
  | inr t ↦
      let none_left : suc (length es) - n ≡ 0 = ground arith in
      let long : length (reverse (e ∷ es)) ≤ n = ground (arith, length-reverse (e ∷ es)) in
      ap reverse (take_all n (reverse (e ∷ es)) long)
      ∙ reverse-reverse (e ∷ es)
      ∙ ap (λ k. drop k (e ∷ es)) (sym none_left)
]

-- The page that the options ask for, of the events that they select, in order: the first after a sequence
-- number, and the last otherwise.
abbrev pub page : Option ℕ → ℕ → List Event → List Event
page none limit es = last limit es
page (some n) limit es = take limit es

length-drop_le : (k n : ℕ) (es : List Event) → length es ≤ k + n → length (drop k es) ≤ n
length-drop_le zero n es h = omega arith
length-drop_le (suc k) n [] h = omega arith
length-drop_le (suc k) n (e ∷ es) h = length-drop_le k n es (omega arith)

length-take_le : (n : ℕ) (es : List Event) → length (take n es) ≤ n
length-take_le zero es = omega arith
length-take_le (suc n) [] = omega arith
length-take_le (suc n) (e ∷ es) = omega (arith, length-take_le n es)

page_limit-le : (limit : Option ℕ) → page_limit limit ≤ 501
page_limit-le none = omega arith
page_limit-le (some n) = omega arith

length-page_le :
    (after : Option ℕ) (limit : ℕ) (es : List Event) → length (page after limit es) ≤ limit
length-page_le none limit es = length-drop_le (length es - limit) limit es (omega arith)
length-page_le (some n) limit es = length-take_le limit es

fetch-page :
    (after : Option ℕ) (limit : ℕ) (es : List Event)
    → IsNumbered es
    → fetch after limit es ≡ page after limit es
fetch-page none limit es n =
    ap (λ rows. reverse (take limit rows)) (sort-descending es n) ∙ reverse-take limit es
fetch-page (some a) limit es n = ap (take limit) (sort-ascending es n)

-- After any calls, `listEvents` answers with the page that its options ask for, of the events that they select in the
-- order of their sequence numbers, however the rows are fetched; the page has at most 501 events.
pub list_events-page :
    (options : ListOptions) (v : Vault)
    → Later new_vault v
    → (list_events options v
        ≡ page options.after_sequence
            (page_limit options.limit)
            (keep (is_listed options) v.events))
      × (length (list_events options v) ≤ 501)
unfolding list_events
list_events-page options v h =
    let rows = keep (is_listed options) v.events in
    let ordered = keep-IsNumbered (is_listed options) v.events (vault-IsOrdered v h).1 in
    let limit = page_limit options.limit in
    let same = fetch-page options.after_sequence limit rows ordered in
    let few = length-page_le options.after_sequence limit rows in
    let most = page_limit-le options.limit in
    (same, subst (λ es. length es ≤ 501) (sym same) (omega arith))
