-- ===== src/Rabbitmq/Pool.antt =====
-- `ConfirmChannels` and `ChannelLease` of crates/rabbitmq/src/publisher.rs: the pool of confirm channels,
-- as steps of one publisher, of the closer or of a lease that drops. A channel is its number.
-- Whether a pooled channel is still connected and whether a new one opens is the environment's to
-- say; lapin gives no two open channels one number. `Vec::pop` and `push` work on the head here.
pub mod Exclusive
mod Tests
use queuey.Common.{ℕ, suc, ◌+◌, ◌≡◌, Bool, true, false, List, [], ◌∷◌, ◌++◌, ◌==◌, count, max, min}

-- u32::MAX
abbrev u32_max : ℕ
u32_max = 4294967295

-- pool_size
pub pool_size : (publish_concurrency : ℕ) → ℕ
pool_size publish_concurrency = max (min publish_concurrency u32_max) 1

pub record ConfirmChannels : Type 0 where
  pub idle : List ℕ
  pub permits : ℕ  -- free
  pub size : ℕ
  pub closed : Bool  -- the semaphore
  pub admitted : ℕ  -- publishers with a permit, before `pop`
  pub opening : ℕ  -- publishers with a permit that open a channel
  pub leased : List ℕ  -- channels with a publisher's one publish
  pub returning : ℕ  -- leases that gave their channel back, and not yet their permit
  pub opened : List ℕ  -- every channel so far

-- ConfirmChannels::new
pub new_channels : (seed size : ℕ) → ConfirmChannels
new_channels seed size = record {
  idle = seed ∷ [];
  permits = size;
  size = size;
  closed = false;
  admitted = 0;
  opening = 0;
  leased = [];
  returning = 0;
  opened = seed ∷ [];
}

-- How often a channel stands in a list.
abbrev pub times : ℕ → List ℕ → ℕ
times c = count (λ d. d == c)

pub data Step (p : ConfirmChannels) : ConfirmChannels → Type 0 where
  -- acquire
  admits :
      (free : ℕ)
      → p.closed ≡ false
      → p.permits ≡ suc free
      → Step p (record p { permits = free; admitted = p.admitted + 1 })
  pops_live :
      (others c : ℕ) (rest : List ℕ)
      → p.admitted ≡ suc others
      → p.idle ≡ c ∷ rest
      → Step p (record p { admitted = others; idle = rest; leased = c ∷ p.leased })
  pops_dead :
      (others c : ℕ) (rest : List ℕ)
      → p.admitted ≡ suc others
      → p.idle ≡ c ∷ rest
      → Step p (record p { admitted = others; idle = rest; opening = p.opening + 1 })
  pops_nothing :
      (others : ℕ)
      → p.admitted ≡ suc others
      → p.idle ≡ []
      → Step p (record p { admitted = others; opening = p.opening + 1 })
  opens :
      (others c : ℕ)
      → p.opening ≡ suc others
      → times c p.opened ≡ 0
      → Step p (record p { opening = others; leased = c ∷ p.leased; opened = c ∷ p.opened })
  does_not_open :
      (others : ℕ)
      → p.opening ≡ suc others
      → Step p (record p { opening = others; permits = p.permits + 1 })
  -- ChannelLease::drop, and then its permit
  gives_back :
      (before : List ℕ) (c : ℕ) (after : List ℕ)
      → p.leased ≡ before ++ c ∷ after
      → Step p
          (record p { leased = before ++ after; idle = c ∷ p.idle; returning = p.returning + 1 })
  releases :
      (others : ℕ)
      → p.returning ≡ suc others
      → Step p (record p { returning = others; permits = p.permits + 1 })
  -- close, which has waited for all permits, and a further close
  closes : p.closed ≡ false → p.permits ≡ p.size → Step p (record p { closed = true; idle = [] })
  closes_again : p.closed ≡ true → Step p (record p { idle = [] })

pub data Reach (seed size : ℕ) : ConfirmChannels → Type 0 where
  new : Reach seed size (new_channels seed size)
  later : {p q : ConfirmChannels} → Reach seed size p → Step p q → Reach seed size q
