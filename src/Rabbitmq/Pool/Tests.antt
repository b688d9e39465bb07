-- ===== src/Rabbitmq/Pool/Tests.antt =====
-- A pool of one channel: a publish on the seed, and then one on a replacement.
use queuey.Common.{false, ℕ, ◌+◌, ◌≤◌, ◌≡◌, refl, true, [], ◌∷◌, length, arith}
use queuey.Rabbitmq.Pool.{
  ConfirmChannels, new_channels, times, admits, pops_live, pops_dead, opens, gives_back, releases,
  Reach, new, later,
}
use queuey.Rabbitmq.Pool.Exclusive.{channels_exclusive}

abbrev replaced : ConfirmChannels
replaced = record {
  idle = [];
  permits = 0;
  size = 1;
  closed = false;
  admitted = 0;
  opening = 0;
  leased = 8 ∷ [];
  returning = 0;
  opened = 8 ∷ 7 ∷ [];
}

abbrev to_replaced : Reach 7 1 replaced
unfolding new_channels
to_replaced =
    later
      (later
        (later
          (later
            (later (later (later new (admits 0 refl refl)) (pops_live 0 7 [] refl refl))
              (gives_back [] 7 [] refl))
            (releases 0 refl))
          (admits 0 refl refl))
        (pops_dead 0 7 [] refl refl))
      (opens 0 8 refl refl)

channels_exclusive_example :
    ((c : ℕ) → times c replaced.idle + times c replaced.leased ≤ 1)
    × (length replaced.leased + 0 ≤ 1)
    × (length replaced.idle + length replaced.leased + 0 ≤ 1)
    × (replaced.closed ≡ true
        → (replaced.leased ≡ []) × (replaced.opening ≡ 0) × (replaced.idle ≡ []))
channels_exclusive_example = channels_exclusive (omega arith) to_replaced
