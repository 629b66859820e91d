-- ===== src/Base/ParseInt.antt =====
-- `strconv.ParseInt(s, 10, 32)` and `strconv.ParseBool(s)`.
use Prim.Native.Nat.{ℕ, ◌-◌, ◌^◌, ◌%◌}
use Prim.Native.Char.{code}
use Prim.Native.String.{String, [], ◌∷◌}
use mathlib.Core.Path.{◌≡◌, refl}
use mathlib.Core.Bool.{Bool, true, false, ◌&&◌, ◌||◌}
use mathlib.Core.Option.{Option, none, some}
use text.Mathlib.Text.{◌==◌}
use controller_powered_by_di.Base.Tests.{if◌then◌else◌, leb, ltb, ◌>>=◌}
use controller_powered_by_di.Base.Text.{is_empty, cut_prefix}
use controller_powered_by_di.Base.Decimal.{atoi_from}

all_digits : String → Bool
all_digits [] = true
all_digits (c ∷ s) = (leb 48 (code c) && leb (code c) 57) && all_digits s

parse_digits : String → Option ℕ
unfolding all_digits atoi_from
parse_digits s = if is_empty s then none else if all_digits s then some (atoi_from 0 s) else none

-- The number as its residue of 32 bits.
unfoldable pub parse_int32 : String → Option ℕ
unfolding parse_digits cut_prefix
parse_int32 s = elim (cut_prefix s "-") [
  | some rest ↦ do
    n ← parse_digits rest
    if leb n (2 ^ 31) then some ((2 ^ 32 - n) % 2 ^ 32) else none
  | none ↦ do
    n ← parse_digits (elim (cut_prefix s "+") [ some rest ↦ rest | none ↦ s ])
    if ltb n (2 ^ 31) then some n else none
]

is_true : String → Bool
is_true s =
    (s == "1")
    || ((s == "t") || ((s == "T") || ((s == "TRUE") || ((s == "true") || (s == "True")))))

is_false : String → Bool
is_false s =
    (s == "0")
    || ((s == "f") || ((s == "F") || ((s == "FALSE") || ((s == "false") || (s == "False")))))

unfoldable pub parse_bool : String → Option Bool
unfolding is_true is_false
parse_bool s = if is_true s then some true else if is_false s then some false else none

parse_int32_runs : parse_int32 "-1" ≡ some 0xffffffff
unfolding parse_int32
parse_int32_runs = refl
