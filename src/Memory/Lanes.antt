-- ===== src/Memory/Lanes.antt =====
-- The abstract view of a queue of the in-memory backend (crates/core/src/memory.rs): a first-in first-out lane
-- for each priority, of which the most important one that is not empty is served.
pub mod Refinement
mod Tests
use queuey.Common.{ℕ, zero, suc, Option, none, some, List, [], ◌∷◌, ◌++◌, ◌==◌, if◌then◌else◌}
use queuey.Envelope.{Envelope}
use queuey.Memory.{insert_by_priority}

-- What publishers and consumers do to the pending envelopes.
pub data Op (V : Type 0) : Type 0 where
  enqueue : Envelope V → Op V
  dequeue : Op V

abbrev pub Lanes : Type 0 → Type 0
Lanes V = ℕ → List (Envelope V)

module _ {V : Type 0} where
  -- `pop_front` of the pending envelopes: the front, and what it leaves.
  abbrev pub front : List (Envelope V) → Option (Envelope V)
  front [] = none
  front (env ∷ rest) = some env

  abbrev pub behind : List (Envelope V) → List (Envelope V)
  behind [] = []
  behind (env ∷ rest) = rest

  -- What the consumer gets for each `dequeue`, if the envelopes are put in by `insert_by_priority`.
  pub run_pending : List (Op V) → List (Envelope V) → List (Option (Envelope V))
  run_pending [] pending = []
  run_pending (enqueue env ∷ ops) pending = run_pending ops (insert_by_priority env pending)
  run_pending (dequeue ∷ ops) pending = front pending ∷ run_pending ops (behind pending)

  abbrev pub add_to_lane : Envelope V → Lanes V → Lanes V
  add_to_lane env lanes p = if env.priority == p then lanes p ++ env ∷ [] else lanes p

  -- The next of lane `p`, if it has one, and else what the lower lanes give.
  abbrev pub serve_lane :
      ℕ
      → Lanes V
      → Option (Envelope V) × Lanes V
      → List (Envelope V)
      → Option (Envelope V) × Lanes V
  serve_lane p lanes lower [] = lower
  serve_lane p lanes lower (env ∷ rest) = (some env, λ q. if q == p then rest else lanes q)

  -- The most important lane that is not empty, from `p` down.
  pub serve : (p : ℕ) → Lanes V → Option (Envelope V) × Lanes V
  serve zero lanes = serve_lane zero lanes (none, lanes) (lanes zero)
  serve (suc p) lanes = let lower = serve p lanes in serve_lane (suc p) lanes lower (lanes (suc p))

  -- The same history over the lanes of all priorities that a `u8` has.
  pub run_lanes : List (Op V) → Lanes V → List (Option (Envelope V))
  run_lanes [] lanes = []
  run_lanes (enqueue env ∷ ops) lanes = run_lanes ops (add_to_lane env lanes)
  run_lanes (dequeue ∷ ops) lanes =
      let (served, left) = serve 255 lanes in served ∷ run_lanes ops left
