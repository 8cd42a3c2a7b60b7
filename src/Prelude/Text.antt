-- ===== src/Prelude/Text.antt =====
-- `fmt.Sprintf("%d", n)`, and that a number can be read back from it.
use Prim.Native.Char.{code}
use Prim.Native.String.{◌++◌ as append}
use Prim.Native.String.append
use k8s_inc.Prelude.{
  ℕ, zero, suc, ◌+◌, ◌-◌, ◌*◌, ◌/◌, ◌%◌, ◌<◌, String, ◌≡◌, refl, sym, ap, ◌∙◌, inl, inr, arith, ltb,
  if◌then◌else◌, ltb→lt, Bool-cases, ℕ_eq, String_eq,
}
use k8s_inc.Prelude.Int.{ℤ, pos, negsuc}

infixl 65 ◌⧺◌
abbrev pub ◌⧺◌ : String → String → String
s ⧺ t = append s t

digit : ℕ → String
digit zero = "0"
digit (suc zero) = "1"
digit (suc (suc zero)) = "2"
digit (suc (suc (suc zero))) = "3"
digit (suc (suc (suc (suc zero)))) = "4"
digit (suc (suc (suc (suc (suc zero))))) = "5"
digit (suc (suc (suc (suc (suc (suc zero)))))) = "6"
digit (suc (suc (suc (suc (suc (suc (suc zero))))))) = "7"
digit (suc (suc (suc (suc (suc (suc (suc (suc zero)))))))) = "8"
digit _ = "9"

-- Fuel above the number is more than its digits.
digits : ℕ → ℕ → String
digits zero n = ""
digits (suc fuel) n =
    let rest = digits fuel (n / 10) in if ltb n 10 then digit n else rest ⧺ digit (n % 10)

unfoldable pub decimal : ℕ → String
unfolding digits digit
decimal n = digits (suc n) n

unfoldable pub decimal_ℤ : ℤ → String
unfolding decimal
decimal_ℤ (pos n) = decimal n
decimal_ℤ (negsuc n) = "-" ⧺ decimal (suc n)

-- the number that a row of digits stands for, behind those read so far
value : ℕ → String → ℕ
value n String.[] = n
value n (String.◌∷◌ c s) = value (n * 10 + (code c - 48)) s

value-append : (n : ℕ) (s t : String) → value n (s ⧺ t) ≡ value (value n s) t
unfolding value
value-append n String.[] t = rw (append.nil t)
value-append n (String.◌∷◌ c s) t =
    rw (append.cons c s t) (value-append (n * 10 + (code c - 48)) s t)

value-digit : (n d : ℕ) → d < 10 → value n (digit d) ≡ n * 10 + d
unfolding value digit
value-digit n zero h = omega arith
value-digit n (suc zero) h = omega arith
value-digit n (suc (suc zero)) h = omega arith
value-digit n (suc (suc (suc zero))) h = omega arith
value-digit n (suc (suc (suc (suc zero)))) h = omega arith
value-digit n (suc (suc (suc (suc (suc zero))))) h = omega arith
value-digit n (suc (suc (suc (suc (suc (suc zero)))))) h = omega arith
value-digit n (suc (suc (suc (suc (suc (suc (suc zero))))))) h = omega arith
value-digit n (suc (suc (suc (suc (suc (suc (suc (suc zero)))))))) h = omega arith
value-digit n (suc (suc (suc (suc (suc (suc (suc (suc (suc zero))))))))) h = omega arith
value-digit n (suc (suc (suc (suc (suc (suc (suc (suc (suc (suc d)))))))))) h = absurd (omega arith)

value-digits : (fuel n : ℕ) → n < fuel → value 0 (digits fuel n) ≡ n
unfolding digits
value-digits zero n h = absurd (omega arith)
value-digits (suc fuel) n h = elim (Bool-cases (ltb n 10)) [
  | inl small ↦ rw small (omega (arith, value-digit 0 n (ltb→lt n 10 small)))
  | inr large ↦ rw large (
      omega (
        arith,
        value-append 0 (digits fuel (n / 10)) (digit (n % 10)),
        value-digit (value 0 (digits fuel (n / 10))) (n % 10) (omega arith),
        value-digits fuel (n / 10) (ground arith),
      ))
]

-- Different numbers are printed differently.
pub decimal_injective : (m n : ℕ) → decimal m ≡ decimal n → m ≡ n
unfolding decimal
decimal_injective m n h =
    sym (value-digits (suc m) m (omega arith))
    ∙ ap (value 0) h
    ∙ value-digits (suc n) n (omega arith)

decimal_runs : decimal 65280 ≡ "65280"
unfolding decimal
decimal_runs = refl
