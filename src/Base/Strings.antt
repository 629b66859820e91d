-- ===== src/Base/Strings.antt =====
-- More of Go's functions on texts: of `strings`, `regexp` and `net`.
use Prim.Native.Nat.{ℕ, ◌+◌}
use Prim.Native.Char.{Char, code}
use Prim.Native.String.{String, [], ◌∷◌, ◌++◌}
use mathlib.Core.Path.{◌≡◌, refl}
use mathlib.Core.Bool.{Bool, false, ◌||◌}
use controller_powered_by_di.Base.Tests.{if◌then◌else◌, num_eq, ltb}

-- The width of a character in UTF-8, and `len(s)`.
abbrev pub width : ℕ → ℕ
width c = if ltb c 0x80 then 1 else if ltb c 0x800 then 2 else if ltb c 0x10000 then 3 else 4

unfoldable pub byte_len : String → ℕ
byte_len [] = 0
byte_len (c ∷ s) = width (code c) + byte_len s

-- `strings.ContainsRune(s, c)`
unfoldable pub has_char : ℕ → String → Bool
has_char k [] = false
has_char k (c ∷ s) = num_eq (code c) k || has_char k s

-- `strings.ReplaceAll(s, c, by)` for a text of one character.
unfoldable pub replace_char : ℕ → String → String → String
replace_char k by [] = []
replace_char k by (c ∷ s) = (if num_eq (code c) k then by else (c ∷ [])) ++ replace_char k by s

-- The characters that `regexp.QuoteMeta` puts a backslash before.
is_special : ℕ → Bool
is_special c = has_char c "\\.+*?()|[]{}^$"

unfoldable pub quote_meta : String → String
unfolding is_special has_char
quote_meta [] = []
quote_meta (c ∷ s) = (if is_special (code c) then "\\" else []) ++ (c ∷ quote_meta s)

-- `net.JoinHostPort`
unfoldable pub join_host_port : String → String → String
unfolding has_char
join_host_port host port =
    if has_char 58 host then "[" ++ (host ++ ("]:" ++ port)) else host ++ (":" ++ port)

-- The character of `ups` at the place where `lows` has the character.
replaced : Char → String → String → Char
replaced c [] ups = c
replaced c (l ∷ lows) [] = c
replaced c (l ∷ lows) (u ∷ ups) = if num_eq (code c) (code l) then u else replaced c lows ups

-- `strings.ToUpper(s)` of an ASCII text.
unfoldable pub to_upper : String → String
unfolding replaced
to_upper [] = []
to_upper (c ∷ s) = replaced c "abcdefghijklmnopqrstuvwxyz" "ABCDEFGHIJKLMNOPQRSTUVWXYZ" ∷ to_upper s

to_upper_runs : to_upper "Get-1" ≡ "GET-1"
unfolding to_upper
to_upper_runs = refl
