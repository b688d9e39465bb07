-- ===== src/Memory/Priority.antt =====
-- The order of a queue's pending envelopes under `insert_by_priority`.
use native.Mathlib.Numerals.{towards_suc}
use queuey.Common.{
  zero, suc, false, Bool-cases, Option-cases, inl, inr, ℕ, ◌+◌, ◌≤◌, ◌<◌, ◌≡◌, refl, true, none,
  List, [], ◌∷◌, ◌++◌, leb, ltb, arith, All, All-map, keep,
}
use queuey.Envelope.{Envelope}
use queuey.Memory.{rposition, insert_at, insert_by_priority}

pub insert_at-suc {ℓ} :
    {A : Type ℓ} (i : ℕ) (a x : A) (xs : List A)
    → insert_at (i + 1) a (x ∷ xs) ≡ x ∷ insert_at i a xs
unfolding insert_at
insert_at-suc i a x xs = simp towards_suc refl

module _ {V : Type 0} where
  -- Priorities do not rise along the list.
  abbrev pub IsOrdered : List (Envelope V) → Type 0
  IsOrdered [] = Unit {0}
  IsOrdered (e ∷ es) = All (λ later. later.priority ≤ e.priority) es × IsOrdered es

  -- The split that the position describes: at or above the priority, then below it.
  abbrev pub at_least : ℕ → List (Envelope V) → List (Envelope V)
  at_least p = keep (λ e. leb p e.priority)

  abbrev pub below : ℕ → List (Envelope V) → List (Envelope V)
  below p = keep (λ e. ltb e.priority p)

  none-at_least :
      (p : ℕ) (es : List (Envelope V))
      → All (λ e. e.priority < p) es
      → (at_least p es ≡ []) × (below p es ≡ es) × (rposition (λ e. leb p e.priority) es ≡ none)
  unfolding rposition
  none-at_least p [] a = (refl, refl, refl)
  none-at_least p (e ∷ es) a = ground (arith, none-at_least p es a.1)

  All-below :
      (p q : ℕ) (es : List (Envelope V))
      → q < p
      → All (λ e. e.priority ≤ q) es
      → All (λ e. e.priority < p) es
  All-below p q [] h a = tt
  All-below p q (e ∷ es) h a = (omega arith, All-below p q es h a.1)

  -- Before an envelope that is at least as important the position moves on by one.
  insert_by_priority-cons :
      (env e : Envelope V) (es : List (Envelope V))
      → leb env.priority e.priority ≡ true
      → insert_by_priority env (e ∷ es) ≡ e ∷ insert_by_priority env es
  unfolding insert_by_priority
  insert_by_priority-cons env e es h =
      elim (Option-cases (rposition (λ p. leb env.priority p.priority) es)) [
        | inl none' ↦ ground (arith, insert_at-suc 0 env e es)
        | inr (i, found) ↦ rw (found, rposition) (ground (arith, insert_at-suc (i + 1) env e es))
      ]

  -- Ahead of envelopes that are all less important the position is the front.
  insert_by_priority_front :
      (env e : Envelope V) (es : List (Envelope V))
      → leb env.priority e.priority ≡ false
      → All (λ later. later.priority < env.priority) es
      → insert_by_priority env (e ∷ es) ≡ env ∷ e ∷ es
  unfolding insert_by_priority
  insert_by_priority_front env e es h b = ground (arith, none-at_least env.priority es b)

  -- On an ordered queue a new envelope lands behind every pending envelope whose priority is
  -- greater than or equal to its own and ahead of the rest, and no other two envelopes change their
  -- order.
  pub insert_by_priority_lem :
      (env : Envelope V) (pending : List (Envelope V))
      → IsOrdered pending
      → insert_by_priority env pending
        ≡ at_least env.priority pending ++ env ∷ below env.priority pending
  unfolding insert_by_priority
  insert_by_priority_lem env [] o = refl
  insert_by_priority_lem env (e ∷ es) o = elim (Bool-cases (leb env.priority e.priority)) [
    | inl yes' ↦ ground (arith, insert_by_priority-cons env e es, insert_by_priority_lem env es o.1)
    | inr no' ↦ ground (
      arith,
      none-at_least env.priority es (All-below env.priority e.priority es (ground arith) o.0),
    )
  ]

  pub insert_at-All :
      (P : Envelope V → Type 0) (i : ℕ) (env : Envelope V) (es : List (Envelope V))
      → P env
      → All P es
      → All P (insert_at i env es)
  unfolding insert_at
  insert_at-All P zero env es p a = (p, a)
  insert_at-All P (suc i) env [] p a = (p, tt)
  insert_at-All P (suc i) env (e ∷ es) p a = (a.0, insert_at-All P i env es p a.1)

  -- The order by priority is kept.
  pub insert_by_priority-IsOrdered :
      (env : Envelope V) (pending : List (Envelope V))
      → IsOrdered pending
      → IsOrdered (insert_by_priority env pending)
  unfolding insert_by_priority
  insert_by_priority-IsOrdered env [] o = (tt, tt)
  insert_by_priority-IsOrdered env (e ∷ es) o = elim (Bool-cases (leb env.priority e.priority)) [
    | inl above ↦ rw (insert_by_priority-cons env e es above) (
      insert_at-All (λ later. later.priority ≤ e.priority) _ env es (ground arith) o.0,
      insert_by_priority-IsOrdered env es o.1,
    )
    | inr under ↦
        let b = All-below env.priority e.priority es (ground arith) o.0 in
        rw (insert_by_priority_front env e es under b)
          ((ground arith, All-map _ _ (λ later h. omega arith) es b), o)
  ]
