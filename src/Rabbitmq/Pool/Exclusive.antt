-- ===== src/Rabbitmq/Pool/Exclusive.antt =====
-- What holds of the pool of confirm channels in every state (crates/rabbitmq/src/publisher.rs).
use queuey.Common.{
  ℕ, ◌+◌, ◌≤◌, ◌<◌, ◌≡◌, refl, ap, true, List, [], ◌∷◌, ◌==◌, count-append, length, length-append,
  arith,
}
use queuey.Rabbitmq.Pool.{
  ConfirmChannels, new_channels, times, Step, admits, pops_live, pops_dead, pops_nothing, opens,
  does_not_open, gives_back, releases, closes, closes_again, Reach, new, later,
}

pub record IsValid (size : ℕ) (p : ConfirmChannels) : Type 0 where
  pub sized : p.size ≡ size
  pub slots : p.permits + p.admitted + p.opening + length p.leased + p.returning ≡ size
  pub few : length p.idle + length p.leased + p.opening ≤ size
  pub once : (c : ℕ) → times c p.idle + times c p.leased ≤ 1
  pub known : (c : ℕ) → times c p.opened ≡ 0 → times c p.idle + times c p.leased ≡ 0
  pub shut :
      p.closed ≡ true
      → (p.idle ≡ []) × (p.leased ≡ []) × (p.admitted ≡ 0) × (p.opening ≡ 0) × (p.returning ≡ 0)

no_lease : (cs : List ℕ) → length cs ≡ 0 → cs ≡ []
no_lease [] h = refl
no_lease (c ∷ cs) h = absurd (omega arith)

Step-IsValid : {size : ℕ} {p q : ConfirmChannels} → Step p q → IsValid size p → IsValid size q
Step-IsValid (admits free open' e) v = record {
  sized = v.sized;
  slots = omega (arith, v.slots);
  few = v.few;
  once = v.once;
  known = v.known;
  shut = λ over. absurd (cc);
}
Step-IsValid (pops_live others c rest a e) v = record {
  sized = v.sized;
  slots = omega (arith, v.slots);
  few = omega (arith, v.few, ap length e);
  once = λ d. omega (arith, v.once d, ap (times d) e);
  known = λ d unknown. omega (arith, v.known d unknown, ap (times d) e);
  shut = λ over. absurd (ground (arith, v.shut over));
}
Step-IsValid (pops_dead others c rest a e) v = record {
  sized = v.sized;
  slots = omega (arith, v.slots);
  few = omega (arith, v.few, ap length e);
  once = λ d. omega (arith, v.once d, ap (times d) e);
  known = λ d unknown. omega (arith, v.known d unknown, ap (times d) e);
  shut = λ over. absurd (ground (arith, v.shut over));
}
Step-IsValid (pops_nothing others a e) v = record {
  sized = v.sized;
  slots = omega (arith, v.slots);
  few = omega (arith, v.slots, ap length e);
  once = v.once;
  known = v.known;
  shut = λ over. absurd (ground (arith, v.shut over));
}
Step-IsValid (opens others c a fresh) v = record {
  sized = v.sized;
  slots = omega (arith, v.slots);
  few = omega (arith, v.few);
  once = λ d. ground (arith, v.once d, v.known c fresh);
  known = λ d unknown. ground (arith, v.known d);
  shut = λ over. absurd (ground (arith, v.shut over));
}
Step-IsValid (does_not_open others a) v = record {
  sized = v.sized;
  slots = omega (arith, v.slots);
  few = omega (arith, v.few);
  once = v.once;
  known = v.known;
  shut = λ over. absurd (ground (arith, v.shut over));
}
Step-IsValid (gives_back before c after e) v = record {
  sized = v.sized;
  slots =
      omega
        (arith, v.slots, ap length e, length-append before (c ∷ after), length-append before after);
  few =
      omega
        (arith, v.few, ap length e, length-append before (c ∷ after), length-append before after);
  once = λ d. omega (
    arith,
    v.once d,
    ap (times d) e,
    count-append (λ x. x == d) before (c ∷ after),
    count-append (λ x. x == d) before after,
  );
  known = λ d unknown. omega (
    arith,
    v.known d unknown,
    ap (times d) e,
    count-append (λ x. x == d) before (c ∷ after),
    count-append (λ x. x == d) before after,
  );
  shut =
      λ over. absurd (ground (arith, v.shut over, ap length e, length-append before (c ∷ after)));
}
Step-IsValid (releases others a) v = record {
  sized = v.sized;
  slots = omega (arith, v.slots);
  few = v.few;
  once = v.once;
  known = v.known;
  shut = λ over. absurd (ground (arith, v.shut over));
}
Step-IsValid {p} (closes open' all) v = record {
  sized = v.sized;
  slots = v.slots;
  few = omega (arith, v.few);
  once = λ d. omega (arith, v.once d);
  known = λ d unknown. omega (arith, v.known d unknown);
  shut = λ over.
      let none_left : length p.leased ≡ 0 = omega (arith, v.slots, v.sized) in
      (
        refl,
        no_lease p.leased none_left,
        omega (arith, v.slots, v.sized),
        omega (arith, v.slots, v.sized),
        omega (arith, v.slots, v.sized),
      );
}
Step-IsValid (closes_again over) v = record {
  sized = v.sized;
  slots = v.slots;
  few = omega (arith, v.few);
  once = λ d. omega (arith, v.once d);
  known = λ d unknown. omega (arith, v.known d unknown);
  shut = λ _. ground (arith, v.shut over);
}

Reach-IsValid :
    {seed size : ℕ} {p : ConfirmChannels} → 0 < size → Reach seed size p → IsValid size p
unfolding new_channels
Reach-IsValid {seed} {size} some' new = record {
  sized = refl;
  slots = omega arith;
  few = omega arith;
  once = λ c. ground arith;
  known = λ c unknown. ground arith;
  shut = λ over. absurd (cc);
}
Reach-IsValid some' (later before step) = Step-IsValid step (Reach-IsValid some' before)

-- Whatever publishers, leases and a closer do, and in whatever order: a channel is with at most one
-- publish, and not in the pool at that time; there are never more publishes in flight, nor more
-- channels pooled, in use or being opened, than the size of the pool. Once the pool is closed, no
-- publish is in flight and no channel is left.
pub channels_exclusive :
    {seed size : ℕ} {p : ConfirmChannels}
    → 0 < size
    → Reach seed size p
    → ((c : ℕ) → times c p.idle + times c p.leased ≤ 1)
      × (length p.leased + p.opening ≤ size)
      × (length p.idle + length p.leased + p.opening ≤ size)
      × (p.closed ≡ true → (p.leased ≡ []) × (p.opening ≡ 0) × (p.idle ≡ []))
channels_exclusive some' reach =
    let v = Reach-IsValid some' reach in
    (
      v.once,
      omega (arith, v.few),
      v.few,
      λ over.
          let (no_idle, no_leased, _, no_opening, _) = v.shut over in
          (no_leased, no_opening, no_idle),
    )
