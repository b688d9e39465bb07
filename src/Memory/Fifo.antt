-- ===== src/Memory/Fifo.antt =====
-- First in, first out: envelopes of one priority leave a queue in the order in which they were put
-- in, whatever stood in the queue before.
use mathlib.Core.List.{append-nil, append_assoc}
use queuey.Common.{
  ℕ, ◌+◌, ◌<◌, ◌≡◌, ◌∙◌, refl, sym, ap, ◌⊎◌, inl, inr, Option-cases, none, List, [], ◌∷◌, ◌++◌, leb,
  ◌==◌, arith, All, keep,
}
use queuey.Envelope.{Envelope}
use queuey.Memory.{rposition, insert_by_priority}
use queuey.Memory.Priority.{IsOrdered, insert_at-suc, insert_by_priority-IsOrdered}

module _ {V : Type 0} where
  -- The envelopes of one priority.
  abbrev pub at_priority : ℕ → List (Envelope V) → List (Envelope V)
  at_priority p = keep (λ e. e.priority == p)

  -- `publish` for one envelope after the other.
  pub insert_all : List (Envelope V) → List (Envelope V) → List (Envelope V)
  insert_all pending [] = pending
  insert_all pending (env ∷ envs) = insert_all (insert_by_priority env pending) envs

  rposition-none :
      (p : ℕ) (es : List (Envelope V))
      → rposition (λ e. leb p e.priority) es ≡ none
      → All (λ e. e.priority < p) es
  unfolding rposition
  rposition-none p [] h = tt
  rposition-none p (e ∷ es) h = ground (arith, rposition-none p es)

  -- A new envelope goes behind the first one, or it goes to the front and all are less important.
  pub insert_cases :
      (env e : Envelope V) (es : List (Envelope V))
      → (insert_by_priority env (e ∷ es) ≡ e ∷ insert_by_priority env es)
        ⊎ ((insert_by_priority env (e ∷ es) ≡ env ∷ e ∷ es)
            × All (λ later. later.priority < env.priority) (e ∷ es))
  unfolding insert_by_priority
  insert_cases env e es = elim (Option-cases (rposition (λ p. leb env.priority p.priority) es)) [
    | inl nowhere ↦ ground (arith, insert_at-suc 0 env e es, rposition-none env.priority es nowhere)
    | inr (i, found) ↦ inl (rw (found, rposition) (ground (arith, insert_at-suc (i + 1) env e es)))
  ]

  pub at_priority-below :
      (p : ℕ) (es : List (Envelope V)) → All (λ e. e.priority < p) es → at_priority p es ≡ []
  at_priority-below p [] a = refl
  at_priority-below p (e ∷ es) a = ground (arith, at_priority-below p es a.1)

  pub at_priority-insert :
      (p : ℕ) (env : Envelope V) (pending : List (Envelope V))
      → at_priority p (insert_by_priority env pending)
        ≡ at_priority p pending ++ at_priority p (env ∷ [])
  unfolding insert_by_priority
  at_priority-insert p env [] = refl
  at_priority-insert p env (e ∷ es) = elim (insert_cases env e es) [
    | inl behind ↦ rw behind (ground (arith, at_priority-insert p env es))
    | inr (front, lower) ↦ rw front (
        ground (
          arith,
          at_priority-below env.priority (e ∷ es) lower,
          append-nil (at_priority p (e ∷ es)),
        ))
  ]

  at_priority-cons :
      (p : ℕ) (env : Envelope V) (envs : List (Envelope V))
      → at_priority p (env ∷ []) ++ at_priority p envs ≡ at_priority p (env ∷ envs)
  at_priority-cons p env envs = ground arith

  -- However many envelopes are published, and whatever the queue held before, at each priority
  -- the new ones stand behind the old ones and in the order of publication. A queue that is
  -- ordered by priority stays so.
  pub insert_all_lem :
      (pending envs : List (Envelope V)) (p : ℕ)
      → (at_priority p (insert_all pending envs) ≡ at_priority p pending ++ at_priority p envs)
        × (IsOrdered pending → IsOrdered (insert_all pending envs))
  unfolding insert_all
  insert_all_lem pending [] p = (sym (append-nil _), λ o. o)
  insert_all_lem pending (env ∷ envs) p =
      let (same, ordered) = insert_all_lem (insert_by_priority env pending) envs p in
      let old = at_priority p pending in
      (
        same
            ∙ ap (λ l. l ++ at_priority p envs) (at_priority-insert p env pending)
            ∙ append_assoc old (at_priority p (env ∷ [])) (at_priority p envs)
            ∙ ap (◌++◌ old) (at_priority-cons p env envs),
        λ o. ordered (insert_by_priority-IsOrdered env pending o),
      )
