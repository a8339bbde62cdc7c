-- ===== src/Common/Text.antt =====
-- `std::to_string` and `absl::StrJoin`.
use raksha.Common.Lists.{get_elem?}
use raksha.Common.Equality.{ltb, Bool-cases, if◌then◌else◌}
use Prim.Native.Nat.{ℕ, zero, suc, ◌+◌, ◌-◌, ◌*◌, ◌/◌, ◌%◌, ◌<◌}
use Prim.Native.Char.{code}
use Prim.Native.String.append
use Prim.Native.String.{String, ◌++◌ as ◌<>◌}
use mathlib.Core.Path.{◌≡◌, refl, ap, sym, ◌∙◌}
use mathlib.Core.Logic.{inl, inr}
use mathlib.Core.Option.{some, none}
use mathlib.Core.List.{List, [], ◌∷◌}
use native.Mathlib.Omega.{arith}

unfoldable pub join_with : String → List String → String
join_with sep [] = ""
join_with sep (x ∷ []) = x
join_with sep (x ∷ y ∷ xs) = x <> sep <> join_with sep (y ∷ xs)

abbrev numerals : List String
numerals = "0" ∷ "1" ∷ "2" ∷ "3" ∷ "4" ∷ "5" ∷ "6" ∷ "7" ∷ "8" ∷ "9" ∷ []

digit : ℕ → String
digit d = elim (get_elem? numerals d) [ some s ↦ s | none ↦ "" ]

-- A number is longer than its count of decimal digits.
decimal : ℕ → ℕ → String
unfolding digit
decimal zero n = ""
decimal (suc fuel) n =
    let rest = decimal fuel (n / 10) in if ltb n 10 then digit n else rest <> digit (n % 10)

unfoldable pub to_string : ℕ → String
unfolding decimal
to_string n = decimal (suc n) n

to_string_1206 : to_string 1206 ≡ "1206"
unfolding to_string
to_string_1206 = refl

-- What the digits spell behind `n`.
value : ℕ → String → ℕ
value n String.[] = n
value n (String.◌∷◌ c s) = value (n * 10 + (code c - 48)) s

value-append : (n : ℕ) (s t : String) → value n (s <> t) ≡ value (value n s) t
unfolding value
value-append n String.[] t = ap (value n) (λ i. append.nil t i)
value-append n (String.◌∷◌ c s) t =
    ap (value n) (λ i. append.cons c s t i) ∙ value-append (n * 10 + (code c - 48)) s t

value-digit : (n d : ℕ) → d < 10 → value n (digit d) ≡ n * 10 + d
unfolding value digit
value-digit n zero h = omega arith
value-digit n (suc zero) h = omega arith
value-digit n (suc (suc zero)) h = omega arith
value-digit n (suc (suc (suc zero))) h = omega arith
value-digit n (suc (suc (suc (suc zero)))) h = omega arith
value-digit n (suc (suc (suc (suc (suc zero))))) h = omega arith
value-digit n (suc (suc (suc (suc (suc (suc zero)))))) h = omega arith
value-digit n (suc (suc (suc (suc (suc (suc (suc zero))))))) h = omega arith
value-digit n (suc (suc (suc (suc (suc (suc (suc (suc zero)))))))) h = omega arith
value-digit n (suc (suc (suc (suc (suc (suc (suc (suc (suc zero))))))))) h = omega arith
value-digit n (suc (suc (suc (suc (suc (suc (suc (suc (suc (suc d)))))))))) h = absurd (omega arith)

value-decimal : (fuel n : ℕ) → n < fuel → value 0 (decimal fuel n) ≡ n
unfolding decimal
value-decimal zero n h = absurd (omega arith)
value-decimal (suc fuel) n h = elim (Bool-cases (ltb n 10)) [
  | inl small ↦ rw small (value-digit 0 n (ground arith) ∙ omega arith)
  | inr large ↦
      rw (large, value-append, value-decimal fuel (n / 10) (ground arith))
        (value-digit (n / 10) (n % 10) (omega arith) ∙ omega arith)
]

-- Different numbers have different decimal texts.
pub to_string-injective : (m n : ℕ) → to_string m ≡ to_string n → m ≡ n
unfolding to_string
to_string-injective m n h =
    sym (value-decimal (suc m) m (omega arith))
    ∙ ap (value 0) h
    ∙ value-decimal (suc n) n (omega arith)
