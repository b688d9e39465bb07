-- ===== src/QueueConfig/Lookup.antt =====
-- Finding a queue by its broker name, and the levels of `max_priority` (crates/core/src/queue.rs).
use queuey.Common.{String, ◌≡◌, ◌≢◌, ◌↔◌, ◌⊎◌, inl, inr, some, List, [], ◌∷◌, eq_iff, arith, All}
use queuey.QueueConfig.{QueueSet, find_name, from_name}

module _ {Q : Type 0} (name : Q → String) where
  -- No two variants of the list have one name.
  abbrev pub NamesDiffer : List Q → Type 0
  NamesDiffer [] = Unit {0}
  NamesDiffer (q ∷ qs) = All (λ p. name p ≢ name q) qs × NamesDiffer qs

  abbrev pub Listed : Q → List Q → Type 0
  Listed q [] = ⊥
  Listed q (p ∷ qs) = (p ≡ q) ⊎ Listed q qs

  All-Listed : (P : Q → Type 0) (q : Q) (qs : List Q) → All P qs → Listed q qs → P q
  All-Listed P q [] a l = elim l [ ]
  All-Listed P q (p ∷ qs) a (inl e) = rw e at a.0
  All-Listed P q (p ∷ qs) a (inr l) = All-Listed P q qs a.1 l

  find_name-Listed :
      (q : Q) (qs : List Q) → NamesDiffer qs → Listed q qs → find_name name (name q) qs ≡ some q
  unfolding find_name
  find_name-Listed q [] d l = elim l [ ]
  find_name-Listed q (p ∷ qs) d (inl e) = ground (arith, eq_iff (name p) (name q))
  find_name-Listed q (p ∷ qs) d (inr l) =
      let n = All-Listed (λ r. name r ≢ name p) q qs d.0 l in
      ground (arith, eq_iff (name p) (name q), find_name-Listed q qs d.1 l)

  find_name_sound :
      (s : String) (q : Q) (qs : List Q) → find_name name s qs ≡ some q → Listed q qs × (name q ≡ s)
  unfolding find_name
  find_name_sound s q [] h = cc
  find_name_sound s q (p ∷ qs) h = ground (arith, eq_iff (name p) s, find_name_sound s q qs)

-- If the variants of a queue set have different names, `from_name` inverts `name`: a name is looked
-- up as a variant exactly when that variant is in the set and has this name.
pub from_name_iff :
    {Q : Type 0} (set : QueueSet Q) (s : String) (q : Q)
    → NamesDiffer set.name set.all
    → (from_name set s ≡ some q) ↔ (Listed set.name q set.all × (set.name q ≡ s))
unfolding from_name
from_name_iff set s q d = (
  find_name_sound set.name s q set.all,
  λ h. rw (← h.1) (find_name-Listed set.name q set.all d h.0),
)
