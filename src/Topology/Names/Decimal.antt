-- ===== src/Topology/Names/Decimal.antt =====
-- Decimal numbers as texts: the number that a text of digits spells, and the part of a name behind its
-- last dot (crates/rabbitmq/src/topology.rs, `deferred_queue_name`).
use Prim.Native.Char.{code}
use Prim.Native.String.{[] as nil, ◌∷◌ as put, ◌++◌, len}
use native.Mathlib.Nat.{div-add-mod', mod-lt}
use text.Mathlib.TextLemmas.{cons-append, nil-append}
use text.Mathlib.TextPositions.{len-append}
use queuey.Common.{
  ◌||◌, inl, inr, Bool-cases, ℕ, zero, suc, ◌+◌, ◌-◌, ◌*◌, ◌/◌, ◌%◌, ◌≤◌, ◌<◌, ◌≡◌, refl, sym, ap,
  ◌∙◌, String, Bool, true, false, arith, ltb, ◌==◌, if◌then◌else◌,
}
use queuey.Topology.Names.{digit, decimal_on, decimal}

-- The number that a text spells behind the digits of `value`.
abbrev spelled : ℕ → String → ℕ
spelled value String.[] = value
spelled value (String.◌∷◌ c s) = spelled (value * 10 + (code c - 48)) s

spelled-append : (v : ℕ) (s t : String) → spelled v (s ++ t) ≡ spelled (spelled v s) t
spelled-append v String.[] t = ap (spelled v) (nil-append t)
spelled-append v (String.◌∷◌ c s) t =
    ap (spelled v) (cons-append c s t) ∙ spelled-append (v * 10 + (code c - 48)) s t

spelled-digit : (v d : ℕ) → d < 10 → spelled v (digit d) ≡ v * 10 + d
spelled-digit v zero h = omega arith
spelled-digit v (suc zero) h = omega arith
spelled-digit v (suc (suc zero)) h = omega arith
spelled-digit v (suc (suc (suc zero))) h = omega arith
spelled-digit v (suc (suc (suc (suc zero)))) h = omega arith
spelled-digit v (suc (suc (suc (suc (suc zero))))) h = omega arith
spelled-digit v (suc (suc (suc (suc (suc (suc zero)))))) h = omega arith
spelled-digit v (suc (suc (suc (suc (suc (suc (suc zero))))))) h = omega arith
spelled-digit v (suc (suc (suc (suc (suc (suc (suc (suc zero)))))))) h = omega arith
spelled-digit v (suc (suc (suc (suc (suc (suc (suc (suc (suc zero))))))))) h = omega arith
spelled-digit v (suc (suc (suc (suc (suc (suc (suc (suc (suc (suc d)))))))))) h =
    absurd (omega arith)

-- The least number with more than that many digits.
abbrev pub limit : ℕ → ℕ
limit zero = 1
limit (suc digits) = 10 * limit digits

spelled-decimal_on : (fuel n : ℕ) → n < limit fuel → spelled 0 (decimal_on fuel n) ≡ n
unfolding decimal_on
spelled-decimal_on zero n h = omega arith
spelled-decimal_on (suc fuel) n h =
    let front = decimal_on fuel (n / 10) in
    let d = div-add-mod' n 10 in
    let r : n % 10 < 10 = mod-lt n (omega arith) in
    let two = front ++ digit (n % 10) in
    let long : spelled 0 two ≡ n =
      spelled-append 0 front (digit (n % 10))
      ∙ (spelled-digit (spelled 0 front) (n % 10) r
          ∙ (ap (λ v. v * 10 + n % 10) (spelled-decimal_on fuel (n / 10) (omega arith))
              ∙ omega arith)) in
    elim (Bool-cases (ltb n 10)) [
      | inl e ↦
          ap (λ b. spelled 0 (if b then digit n else two)) e
          ∙ (spelled-digit 0 n (ground arith) ∙ omega arith)
      | inr e ↦ ap (λ b. spelled 0 (if b then digit n else two)) e ∙ long
    ]

-- Two numbers of at most ten digits that look the same are the same.
pub decimal_injective : (m n : ℕ) → m < limit 10 → n < limit 10 → decimal m ≡ decimal n → m ≡ n
unfolding decimal decimal_on
decimal_injective m n hm hn e =
    sym (spelled-decimal_on 10 m hm) ∙ (ap (spelled 0) e ∙ spelled-decimal_on 10 n hn)

pub len-digit : (d : ℕ) → len (digit d) ≡ 1
len-digit zero = refl
len-digit (suc zero) = refl
len-digit (suc (suc zero)) = refl
len-digit (suc (suc (suc zero))) = refl
len-digit (suc (suc (suc (suc zero)))) = refl
len-digit (suc (suc (suc (suc (suc zero))))) = refl
len-digit (suc (suc (suc (suc (suc (suc zero)))))) = refl
len-digit (suc (suc (suc (suc (suc (suc (suc zero))))))) = refl
len-digit (suc (suc (suc (suc (suc (suc (suc (suc zero)))))))) = refl
len-digit (suc (suc (suc (suc (suc (suc (suc (suc (suc d))))))))) = refl

pub len-decimal_on : (fuel n : ℕ) → len (decimal_on fuel n) ≤ fuel
unfolding decimal_on
len-decimal_on zero n = omega arith
len-decimal_on (suc fuel) n =
    let front = decimal_on fuel (n / 10) in
    let few = len-decimal_on fuel (n / 10) in
    let one : len (digit (n % 10)) ≡ 1 = len-digit (n % 10) in
    let both : len (front ++ digit (n % 10)) ≡ len front + 1 =
      len-append front (digit (n % 10)) ∙ ap (λ k. len front + k) one in
    elim (Bool-cases (ltb n 10)) [
      | inl e ↦
          omega
            (arith, ap (λ b. len (if b then digit n else front ++ digit (n % 10))) e, len-digit n)
      | inr e ↦ omega (arith, ap (λ b. len (if b then digit n else front ++ digit (n % 10))) e)
    ]

pub len-decimal : (n : ℕ) → len (decimal n) ≤ 10
unfolding decimal decimal_on
len-decimal n = len-decimal_on 10 n

-- The part of a text behind its last dot, and whether it has one.
abbrev has_dot : String → Bool
has_dot String.[] = false
has_dot (String.◌∷◌ c s) = if code c == 46 then true else has_dot s

abbrev last_part : String → String
last_part String.[] = nil
last_part (String.◌∷◌ c s) = let rest = last_part s in if has_dot s then rest else s

or-if : (a b c : Bool) → (if a then true else (b || c)) ≡ ((if a then true else b) || c)
or-if true b c = refl
or-if false b c = refl

or_true : (a : Bool) {b : Bool} → b ≡ true → (a || b) ≡ true
or_true true h = refl
or_true false h = h

has_dot-append : (s t : String) → has_dot (s ++ t) ≡ (has_dot s || has_dot t)
has_dot-append String.[] t = ap has_dot (nil-append t)
has_dot-append (String.◌∷◌ c s) t =
    ap has_dot (cons-append c s t)
    ∙ (ap (λ b. if code c == 46 then true else b) (has_dot-append s t)
        ∙ or-if (code c == 46) (has_dot s) (has_dot t))

has_dot-digit : (d : ℕ) → has_dot (digit d) ≡ false
has_dot-digit zero = refl
has_dot-digit (suc zero) = refl
has_dot-digit (suc (suc zero)) = refl
has_dot-digit (suc (suc (suc zero))) = refl
has_dot-digit (suc (suc (suc (suc zero)))) = refl
has_dot-digit (suc (suc (suc (suc (suc zero))))) = refl
has_dot-digit (suc (suc (suc (suc (suc (suc zero)))))) = refl
has_dot-digit (suc (suc (suc (suc (suc (suc (suc zero))))))) = refl
has_dot-digit (suc (suc (suc (suc (suc (suc (suc (suc zero)))))))) = refl
has_dot-digit (suc (suc (suc (suc (suc (suc (suc (suc (suc d))))))))) = refl

has_dot-decimal_on : (fuel n : ℕ) → has_dot (decimal_on fuel n) ≡ false
unfolding decimal_on
has_dot-decimal_on zero n = refl
has_dot-decimal_on (suc fuel) n =
    let front = decimal_on fuel (n / 10) in
    let none : has_dot (front ++ digit (n % 10)) ≡ false =
      has_dot-append front (digit (n % 10))
      ∙ cc (has_dot-decimal_on fuel (n / 10), has_dot-digit (n % 10)) in
    elim (Bool-cases (ltb n 10)) [
      | inl e ↦
          ap (λ b. has_dot (if b then digit n else front ++ digit (n % 10))) e ∙ has_dot-digit n
      | inr e ↦ ap (λ b. has_dot (if b then digit n else front ++ digit (n % 10))) e ∙ none
    ]

last_part-append : (s t : String) → has_dot t ≡ false → last_part (s ++ ("." ++ t)) ≡ t
last_part-append String.[] t h =
    ap last_part (nil-append ("." ++ t) ∙ cons-append "." nil t)
    ∙ (ap last_part (ap (put ".") (nil-append t)) ∙ ap (λ b. if b then last_part t else t) h)
last_part-append (String.◌∷◌ c s) t h =
    let dotted : has_dot (s ++ ("." ++ t)) ≡ true =
      has_dot-append s ("." ++ t) ∙ or_true (has_dot s) (ap has_dot (cons-append "." nil t)) in
    ap last_part (cons-append c s ("." ++ t))
    ∙ (ap (λ b. if b then last_part (s ++ ("." ++ t)) else s ++ ("." ++ t)) dotted
        ∙ last_part-append s t h)

-- What stands behind the last dot of such a name is the number, and so the number is known.
pub decimal-behind_dot :
    (s t : String) (m n : ℕ)
    → s ++ ("." ++ decimal m) ≡ t ++ ("." ++ decimal n)
    → decimal m ≡ decimal n
unfolding decimal decimal_on
decimal-behind_dot s t m n e =
    sym (last_part-append s (decimal m) (has_dot-decimal_on 10 m))
    ∙ (ap last_part e ∙ last_part-append t (decimal n) (has_dot-decimal_on 10 n))
