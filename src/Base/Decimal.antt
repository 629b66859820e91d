-- ===== src/Base/Decimal.antt =====
-- `strconv.Itoa` on a number that is not negative, and reading it back.
use Prim.Native.Nat.{ℕ, zero, suc, ◌+◌, ◌-◌, ◌*◌, ◌/◌, ◌%◌, ◌≤◌, ◌<◌}
use Prim.Native.Char.{Char, code}
use Prim.Native.String.{String, [], ◌∷◌, ◌++◌}
use mathlib.Core.Path.{◌≡◌, refl, ap, ◌∙◌}
use native.Mathlib.Omega.{arith}
use text.Mathlib.TextLemmas.{nil-append, cons-append}
use controller_powered_by_di.Base.Tests.{if◌then◌else◌, ltb, Bool-cases}
use mathlib.Core.Logic.{inl, inr}

-- The digit of a number below ten.
abbrev digit : ℕ → String
digit zero = "0"
digit (suc zero) = "1"
digit (suc (suc zero)) = "2"
digit (suc (suc (suc zero))) = "3"
digit (suc (suc (suc (suc zero)))) = "4"
digit (suc (suc (suc (suc (suc zero))))) = "5"
digit (suc (suc (suc (suc (suc (suc zero)))))) = "6"
digit (suc (suc (suc (suc (suc (suc (suc zero))))))) = "7"
digit (suc (suc (suc (suc (suc (suc (suc (suc zero)))))))) = "8"
digit (suc (suc (suc (suc (suc (suc (suc (suc (suc n))))))))) = "9"

itoa_from : ℕ → ℕ → String → String
itoa_from zero n acc = acc
itoa_from (suc fuel) n acc =
    let rest = itoa_from fuel (n / 10) (digit (n % 10) ++ acc) in
    if ltb n 10 then digit n ++ acc else rest

unfoldable pub itoa : ℕ → String
unfolding itoa_from
itoa n = itoa_from (suc n) n ""

-- The number that a text of digits stands for, after the number read so far.
unfoldable pub atoi_from : ℕ → String → ℕ
atoi_from n [] = n
atoi_from n (c ∷ s) = atoi_from (n * 10 + (code c - 48)) s

pub atoi : String → ℕ
atoi s = atoi_from 0 s

itoa_runs : itoa 65535 ≡ "65535"
unfolding itoa
itoa_runs = refl

atoi_from-one :
    (m : ℕ) (c : Char) (acc : String)
    → atoi_from m ((c ∷ []) ++ acc) ≡ atoi_from (m * 10 + (code c - 48)) acc
unfolding atoi_from
atoi_from-one m c acc = rw (cons-append, nil-append) refl

atoi_from-digit :
    (m d : ℕ) (acc : String) → d < 10 → atoi_from m (digit d ++ acc) ≡ atoi_from (m * 10 + d) acc
atoi_from-digit m zero acc h = atoi_from-one m _ acc
atoi_from-digit m (suc zero) acc h = atoi_from-one m _ acc
atoi_from-digit m (suc (suc zero)) acc h = atoi_from-one m _ acc
atoi_from-digit m (suc (suc (suc zero))) acc h = atoi_from-one m _ acc
atoi_from-digit m (suc (suc (suc (suc zero)))) acc h = atoi_from-one m _ acc
atoi_from-digit m (suc (suc (suc (suc (suc zero))))) acc h = atoi_from-one m _ acc
atoi_from-digit m (suc (suc (suc (suc (suc (suc zero)))))) acc h = atoi_from-one m _ acc
atoi_from-digit m (suc (suc (suc (suc (suc (suc (suc zero))))))) acc h = atoi_from-one m _ acc
atoi_from-digit m (suc (suc (suc (suc (suc (suc (suc (suc zero)))))))) acc h = atoi_from-one m _ acc
atoi_from-digit m (suc (suc (suc (suc (suc (suc (suc (suc (suc zero))))))))) acc h =
    atoi_from-one m _ acc
atoi_from-digit m (suc (suc (suc (suc (suc (suc (suc (suc (suc (suc n)))))))))) acc h =
    absurd (omega arith)

atoi_from-itoa_from :
    (fuel n : ℕ) (acc : String) → n < fuel → atoi_from 0 (itoa_from fuel n acc) ≡ atoi_from n acc
unfolding itoa_from
atoi_from-itoa_from zero n acc h = absurd (omega arith)
atoi_from-itoa_from (suc fuel) n acc h = elim (Bool-cases (ltb n 10)) [
  | inl one ↦
      rw one (atoi_from-digit 0 n acc (ground arith) ∙ ap (λ k. atoi_from k acc) (omega arith))
  | inr more ↦
      let big : 10 ≤ n = ground arith in
      rw more (
        atoi_from-itoa_from fuel (n / 10) (digit (n % 10) ++ acc) (omega arith)
        ∙ atoi_from-digit (n / 10) (n % 10) acc (omega arith)
        ∙ ap (λ k. atoi_from k acc) (omega arith))
]

-- Reading the printed form back gives the number, so the fuel of the printing loop suffices.
pub atoi-itoa : (n : ℕ) → atoi (itoa n) ≡ n
unfolding itoa atoi
atoi-itoa n = atoi_from-itoa_from (suc n) n "" (omega arith) ∙ nothing_left n
  where
    nothing_left : (m : ℕ) → atoi_from m "" ≡ m
    nothing_left m = unfold atoi_from in refl

-- Different numbers print differently.
pub itoa_injective : (m n : ℕ) → itoa m ≡ itoa n → m ≡ n
itoa_injective m n e = cc (ap atoi e, atoi-itoa m, atoi-itoa n)
