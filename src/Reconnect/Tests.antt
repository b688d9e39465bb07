-- ===== src/Reconnect/Tests.antt =====
-- An outage under a policy of four attempts.
use queuey.Common.{◌⊎◌, ℕ, ◌≡◌, ◌≤◌, ◌-◌, String, false, some, List, ◌∷◌, arith, length, All}
use queuey.Retry.{Duration, exponential}
use queuey.Retry.Tests.{whole_floats}
use queuey.Reconnect.{connection, BackoffPolicy}
use queuey.Reconnect.Outage.{delays, length-delays}

abbrev none_yet : ℕ
none_yet = 0

abbrev most : ℕ
most = 4

abbrev refusal : String
refusal = "connection refused"

abbrev four : BackoffPolicy
four = record { max_attempts = some 4; backoff = exponential 100 3 500 false }

length-delays_example :
    let waits = delays whole_floats connection refusal 6 four 0 in
    (length waits ≡ 4 - 0)
    × All (λ wait. wait ≤ 500) waits
    × ((1 ≤ none_yet) ⊎ (most ≡ 0) ⊎ ((rest : List Duration) × (waits ≡ 0 ∷ rest)))
length-delays_example =
    length-delays whole_floats connection refusal 6 4 0 100 3 500 false (omega arith)
