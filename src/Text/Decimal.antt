-- ===== src/Text/Decimal.antt =====
-- `strconv.Itoa` of a number that is not negative, and why a list of numbers reads back.
use cloudarq.Prelude.{
  ℕ, zero, suc, ◌+◌, ◌*◌, ◌/◌, ◌%◌, ◌-◌, ◌<◌, ◌≤◌, ◌≡◌, ap, ◌∙◌, sym, true, [], ◌∷◌, arith, ltb,
  if◌then◌else◌, All,
}
use cloudarq.Text.Bytes.{Bytes}

-- The digits of `n` in front of `tail`; a number has fewer digits than `n + 1`.
digits : ℕ → ℕ → Bytes → Bytes
digits zero n tail = tail
digits (suc fuel) n tail =
    let more = digits fuel (n / 10) ((48 + n % 10) ∷ tail) in
    if ltb n 10 then (48 + n) ∷ tail else more

unfoldable pub itoa : ℕ → Bytes
unfolding digits
itoa n = digits (suc n) n []

-- The number that digits stand for, behind those read into `acc`.
value : ℕ → Bytes → ℕ
value acc [] = acc
value acc (d ∷ ds) = value (acc * 10 + (d - 48)) ds

abbrev pub IsDigits : Bytes → Type 0
IsDigits s = All (λ b. (48 ≤ b) × (b < 58)) s

digits-value : (fuel n : ℕ) (tail : Bytes) → n < fuel → value 0 (digits fuel n tail) ≡ value n tail
unfolding digits value
digits-value zero n tail h = absurd (omega arith)
digits-value (suc fuel) n tail h =
    let d : 48 + n % 10 - 48 ≡ n % 10 = omega arith in
    let e : n / 10 * 10 + n % 10 ≡ n = omega arith in
    let next : value (n / 10) ((48 + n % 10) ∷ tail) ≡ value n tail =
      ap (λ x. value x tail) (ap (λ y. n / 10 * 10 + y) d ∙ e) in
    let small : ltb n 10 ≡ true → value 0 ((48 + n) ∷ tail) ≡ value n tail =
      λ _. let z : 0 * 10 + (48 + n - 48) ≡ n = omega arith in ap (λ x. value x tail) z in
    ground (arith, small, next, digits-value fuel (n / 10) ((48 + n % 10) ∷ tail))

digits-IsDigits : (fuel n : ℕ) (tail : Bytes) → IsDigits tail → IsDigits (digits fuel n tail)
unfolding digits
digits-IsDigits zero n tail h = h
digits-IsDigits (suc fuel) n tail h =
    ground (arith, digits-IsDigits fuel (n / 10) ((48 + n % 10) ∷ tail))

pub itoa-IsDigits : (n : ℕ) → IsDigits (itoa n)
unfolding itoa
itoa-IsDigits n = digits-IsDigits (suc n) n [] tt

-- A decimal shows its number.
pub itoa-injective : (m n : ℕ) → itoa m ≡ itoa n → m ≡ n
unfolding itoa value
itoa-injective m n e =
    sym (digits-value (suc m) m [] (omega arith))
    ∙ ap (value 0) e
    ∙ digits-value (suc n) n [] (omega arith)
