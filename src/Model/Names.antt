-- ===== src/Model/Names.antt =====
-- pkg/model/helper.go, `Shorten`: names of at most 63 bytes. The hexadecimal SHA-256 of a text is an
-- argument.
pub mod Bounds
use Prim.Native.Nat.{◌-◌}
use Prim.Native.Char.{Char, code}
use Prim.Native.String.{String, [], ◌∷◌, ◌++◌}
use controller_powered_by_di.Base.{
  ℕ, ◌+◌, ◌≤◌, ◌≡◌, refl, arith, inl, inr, Bool-cases, if◌then◌else◌, num_eq, leb, ltb,
}
use controller_powered_by_di.Base.Strings.{byte_len, width}

-- `s[:n]`; a character that the cut divides is dropped.
unfoldable pub take_bytes : ℕ → String → String
take_bytes n [] = []
take_bytes n (c ∷ s) =
    let rest = take_bytes (n - width (code c)) s in if leb (width (code c)) n then c ∷ rest else []

encoded : Char → String
encoded c =
    if num_eq (code c) 48
    then "g"
    else if num_eq (code c) 49
    then "h"
    else if num_eq (code c) 51
    then "k"
    else if num_eq (code c) 97
    then "m"
    else if num_eq (code c) 101
    then "t"
    else c ∷ []

encode_all : String → String
unfolding encoded
encode_all [] = []
encode_all (c ∷ s) = encoded c ++ encode_all s

unfoldable pub encodehash : String → String
unfolding take_bytes encode_all
encodehash x = encode_all (take_bytes 10 x)

unfoldable pub shorten : (String → String) → String → String
unfolding encodehash take_bytes byte_len
shorten hash s = if ltb 63 (byte_len s) then take_bytes 52 s ++ ("-" ++ encodehash (hash s)) else s
