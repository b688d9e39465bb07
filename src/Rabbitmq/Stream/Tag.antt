-- ===== src/Rabbitmq/Stream/Tag.antt =====
-- `consumer_tag` of crates/rabbitmq/src/backend.rs, from the nanoseconds of the clock (a `u128`) and the number
-- that the process-wide counter (a `u64`) gives.
use Prim.Native.String.{◌++◌, len}
use text.Mathlib.TextPositions.{len-append}
use queuey.Common.{
  ap, ◌∙◌, ℕ, zero, suc, ◌+◌, ◌-◌, ◌/◌, ◌%◌, ◌≤◌, ◌≡◌, refl, String, none, arith, ltb, Bool-cases,
  inl, inr, if◌then◌else◌,
}
use queuey.Topology.Names.{digit, decimal_on}
use queuey.Topology.Names.Decimal.{len-digit, len-decimal_on}
use queuey.Rabbitmq.Codec.{truncate_at_boundary}
use queuey.Rabbitmq.Codec.Truncate.{truncate_at_boundary_lem}
use queuey.Rabbitmq.Errors.{short_string}

abbrev letter : ℕ → String
letter zero = "a"
letter (suc zero) = "b"
letter (suc (suc zero)) = "c"
letter (suc (suc (suc zero))) = "d"
letter (suc (suc (suc (suc zero)))) = "e"
letter _ = "f"

-- A digit of `LowerHex`.
abbrev hex_digit : ℕ → String
hex_digit d = if ltb d 10 then digit d else letter (d - 10)

-- `LowerHex` of a number with at most `fuel` digits.
pub hex_on : (fuel : ℕ) → ℕ → String
hex_on zero n = ""
hex_on (suc fuel) n =
    let front = hex_on fuel (n / 16) in
    if ltb n 16 then hex_digit n else front ++ hex_digit (n % 16)

unfoldable pub consumer_tag : (queue : String) → (nanos sequence : ℕ) → String
unfolding hex_on
consumer_tag queue nanos sequence =
    "queuey."
    ++ (truncate_at_boundary queue 160
        ++ ("." ++ (hex_on 32 nanos ++ ("." ++ decimal_on 20 sequence))))

len-letter : (d : ℕ) → len (letter d) ≡ 1
len-letter zero = refl
len-letter (suc zero) = refl
len-letter (suc (suc zero)) = refl
len-letter (suc (suc (suc zero))) = refl
len-letter (suc (suc (suc (suc zero)))) = refl
len-letter (suc (suc (suc (suc (suc d))))) = refl

len-hex_digit : (d : ℕ) → len (hex_digit d) ≡ 1
len-hex_digit d = elim (Bool-cases (ltb d 10)) [
  | inl e ↦ ap (λ b. len (if b then digit d else letter (d - 10))) e ∙ len-digit d
  | inr e ↦ ap (λ b. len (if b then digit d else letter (d - 10))) e ∙ len-letter (d - 10)
]

len-hex_on : (fuel n : ℕ) → len (hex_on fuel n) ≤ fuel
unfolding hex_on
len-hex_on zero n = omega arith
len-hex_on (suc fuel) n =
    let front = hex_on fuel (n / 16) in
    let few = len-hex_on fuel (n / 16) in
    let one : len (hex_digit (n % 16)) ≡ 1 = len-hex_digit (n % 16) in
    let both : len (front ++ hex_digit (n % 16)) ≡ len front + 1 =
      len-append front (hex_digit (n % 16)) ∙ ap (λ k. len front + k) one in
    elim (Bool-cases (ltb n 16)) [
      | inl e ↦ omega (
        arith,
        ap (λ b. len (if b then hex_digit n else front ++ hex_digit (n % 16))) e,
        len-hex_digit n,
      )
      | inr e ↦
          omega
            (arith, both, ap (λ b. len (if b then hex_digit n else front ++ hex_digit (n % 16))) e)
    ]

-- Whatever the name of the queue, its consumer tag is short enough for AMQP.
consumer_tag-fits :
    (queue : String) (nanos sequence : ℕ) → short_string (consumer_tag queue nanos sequence) ≡ none
unfolding consumer_tag short_string
consumer_tag-fits queue nanos sequence =
    let cut = truncate_at_boundary queue 160 in
    let (_, short, _) = truncate_at_boundary_lem queue 160 in
    let hex = hex_on 32 nanos in
    let number = decimal_on 20 sequence in
    let e1 = len-append "queuey." (cut ++ ("." ++ (hex ++ ("." ++ number)))) in
    let e2 = len-append cut ("." ++ (hex ++ ("." ++ number))) in
    let e3 = len-append "." (hex ++ ("." ++ number)) in
    let e4 = len-append hex ("." ++ number) in
    let e5 = len-append "." number in
    let h = len-hex_on 32 nanos in
    let d = len-decimal_on 20 sequence in
    let fits : len ("queuey." ++ (cut ++ ("." ++ (hex ++ ("." ++ number))))) ≤ 255 =
      omega (arith, e1, e2, e3, e4, e5, h, d, short) in
    ground (arith, fits)
