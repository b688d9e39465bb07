-- ===== src/Memory/Lanes/Refinement.antt =====
-- The pending envelopes of the in-memory backend (crates/core/src/memory.rs) implement the lanes.
use mathlib.Core.List.{append-nil}
use native.Mathlib.Decide.{dec_le}
use queuey.Common.{
  ℕ, zero, suc, ◌≤◌, ◌<◌, ◌≡◌, refl, sym, ap, ◌∙◌, inl, inr, none, some, List, [], ◌∷◌, ◌==◌, All,
  All-map, arith, if◌then◌else◌, Bool-cases,
}
use queuey.Envelope.{Envelope}
use queuey.Memory.{insert_by_priority}
use queuey.Memory.Priority.{IsOrdered, insert_by_priority-IsOrdered, insert_at-All}
use queuey.Memory.Fifo.{at_priority, at_priority-insert, at_priority-below}
use queuey.Memory.Lanes.{
  Op, enqueue, dequeue, Lanes, run_pending, add_to_lane, serve_lane, serve, run_lanes,
}

module _ {V : Type 0} where
  -- With all lanes empty there is nothing to serve.
  serve-nothing :
      (p : ℕ) (lanes : Lanes V) → ((q : ℕ) → lanes q ≡ []) → serve p lanes ≡ (none, lanes)
  unfolding serve
  serve-nothing zero lanes h = ap (serve_lane zero lanes (none, lanes)) (h zero)
  serve-nothing (suc p) lanes h =
      ap (serve_lane (suc p) lanes (serve p lanes)) (h (suc p)) ∙ serve-nothing p lanes h

  -- The lane that is served is the one above which all are empty.
  serve-lane :
      (p k : ℕ) (lanes : Lanes V) (env : Envelope V) (rest : List (Envelope V))
      → k ≤ p
      → lanes k ≡ env ∷ rest
      → ((q : ℕ) → k < q → lanes q ≡ [])
      → serve p lanes ≡ (some env, λ q. if q == k then rest else lanes q)
  unfolding serve
  serve-lane zero zero lanes env rest h full empty = ap (serve_lane zero lanes (none, lanes)) full
  serve-lane zero (suc k) lanes env rest h full empty = absurd (omega arith)
  serve-lane (suc p) k lanes env rest h full empty = elim (dec_le (suc p) k) [
    | yes above ↦
        let same : suc p ≡ k = omega arith in rw same (ap (serve_lane k lanes (serve p lanes)) full)
    | no under ↦
        ap (serve_lane (suc p) lanes (serve p lanes)) (empty (suc p) (omega arith))
        ∙ serve-lane p k lanes env rest (omega arith) full empty
  ]

  -- The lanes hold what is pending, of each priority, and the pending envelopes are in order.
  record Represents (pending : List (Envelope V)) (lanes : Lanes V) : Type 0 where
    ordered : IsOrdered pending
    bytes : All (λ env. env.priority ≤ 255) pending
    split : (p : ℕ) → lanes p ≡ at_priority p pending

  split-insert :
      (p : ℕ) (env : Envelope V) (pending : List (Envelope V)) (lanes : Lanes V)
      → lanes p ≡ at_priority p pending
      → add_to_lane env lanes p ≡ at_priority p (insert_by_priority env pending)
  split-insert p env pending lanes same =
      let inserted = at_priority-insert p env pending in
      let unchanged = append-nil (at_priority p pending) in
      elim (Bool-cases (env.priority == p)) [
        | inl here ↦ ground arith
        | inr elsewhere ↦ ground arith
      ]

  insert-Represents :
      (env : Envelope V) (pending : List (Envelope V)) (lanes : Lanes V)
      → env.priority ≤ 255
      → Represents pending lanes
      → Represents (insert_by_priority env pending) (add_to_lane env lanes)
  unfolding insert_by_priority
  insert-Represents env pending lanes byte r = record {
    ordered = insert_by_priority-IsOrdered env pending r.ordered;
    bytes = insert_at-All (λ e. e.priority ≤ 255) _ env pending byte r.bytes;
    split = λ p. split-insert p env pending lanes (r.split p);
  }

  -- Above the front's priority all lanes are empty.
  above-front :
      (env : Envelope V) (rest : List (Envelope V)) (lanes : Lanes V) (q : ℕ)
      → Represents (env ∷ rest) lanes
      → env.priority < q
      → lanes q ≡ []
  above-front env rest lanes q r h =
      r.split q
      ∙ at_priority-below q (env ∷ rest) (h, All-map _ _ (λ e le. omega arith) rest r.ordered.0)

  behind-Represents :
      (env : Envelope V) (rest : List (Envelope V)) (lanes : Lanes V)
      → Represents (env ∷ rest) lanes
      → Represents rest (λ q. if q == env.priority then at_priority env.priority rest else lanes q)
  behind-Represents env rest lanes r = record {
    ordered = r.ordered.1;
    bytes = r.bytes.1;
    split = λ p. let old = r.split p in ground arith;
  }

  abbrev pub AllBytes : List (Op V) → Type 0
  AllBytes [] = Unit {0}
  AllBytes (enqueue env ∷ ops) = (env.priority ≤ 255) × AllBytes ops
  AllBytes (dequeue ∷ ops) = AllBytes ops

  runs-alike :
      (ops : List (Op V)) (pending : List (Envelope V)) (lanes : Lanes V)
      → AllBytes ops
      → Represents pending lanes
      → run_pending ops pending ≡ run_lanes ops lanes
  unfolding run_pending run_lanes
  runs-alike [] pending lanes bytes r = refl
  runs-alike (enqueue env ∷ ops) pending lanes bytes r =
      runs-alike ops (insert_by_priority env pending) (add_to_lane env lanes) bytes.1
        (insert-Represents env pending lanes bytes.0 r)
  runs-alike (dequeue ∷ ops) [] lanes bytes r =
      let served = serve-nothing 255 lanes r.split in
      ap (◌∷◌ none) (runs-alike ops [] lanes bytes r)
      ∙ ap (λ s. s.0 ∷ run_lanes ops s.1) (sym served)
  runs-alike (dequeue ∷ ops) (env ∷ rest) lanes bytes r =
      let served =
        serve-lane 255 env.priority lanes env (at_priority env.priority rest) r.bytes.0
          (r.split env.priority ∙ ground arith) (λ q h. above-front env rest lanes q r h) in
      ap (◌∷◌ (some env)) (runs-alike ops rest _ bytes (behind-Represents env rest lanes r))
      ∙ ap (λ s. s.0 ∷ run_lanes ops s.1) (sym served)

  -- A queue that starts empty gives its consumers the same envelopes, in the same order and at the
  -- same times, as the lanes do, for every history in which the priorities are those of a `u8`:
  -- always the oldest one of the highest priority that is waiting, and nothing if there is none.
  pub run_pending-run_lanes :
      (ops : List (Op V)) → AllBytes ops → run_pending ops [] ≡ run_lanes ops (λ p. [])
  run_pending-run_lanes ops bytes =
      runs-alike ops [] (λ p. []) bytes (record { ordered = tt; bytes = tt; split = λ p. refl })
