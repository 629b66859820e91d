-- ===== src/Model/Names/Bounds.antt =====
-- pkg/model/helper.go, `Shorten`: the length of its names.
use Prim.Native.Nat.{◌-◌}
use Prim.Native.Char.{Char, code}
use Prim.Native.String.{String, [], ◌∷◌, ◌++◌}
use text.Mathlib.TextLemmas.{nil-append, cons-append}
use controller_powered_by_di.Base.{
  ℕ, ◌+◌, ◌≤◌, ◌≡◌, arith, inl, inr, Bool-cases, if◌then◌else◌, num_eq, leb, ltb, Bool, true, false,
}
use controller_powered_by_di.Base.Strings.{byte_len, width}
use controller_powered_by_di.Model.Names.{take_bytes, encoded, encode_all, encodehash, shorten}

zero_plus : (n : ℕ) → n ≡ 0 + n
zero_plus n = omega arith

byte_len-append : (s t : String) → byte_len (s ++ t) ≡ byte_len s + byte_len t
unfolding byte_len
byte_len-append [] t = rw (nil-append t) (zero_plus (byte_len t))
byte_len-append (c ∷ s) t = rw (cons-append c s t) (omega (arith, byte_len-append s t))

take_bytes-bound : (n : ℕ) (s : String) → byte_len (take_bytes n s) ≤ n
unfolding take_bytes byte_len
take_bytes-bound n [] = omega arith
take_bytes-bound n (c ∷ s) = elim (Bool-cases (leb (width (code c)) n)) [
  | inl fits ↦
      let small : width (code c) ≤ n = ground arith in
      rw fits (omega (arith, small, take_bytes-bound (n - width (code c)) s))
  | inr over ↦ rw over (omega arith)
]

width-positive : (c : ℕ) → 1 ≤ width c
width-positive c = ground arith

if-bound :
    (b : Bool) (s t : String) (n : ℕ)
    → byte_len s ≤ n
    → byte_len t ≤ n
    → byte_len (if b then s else t) ≤ n
if-bound true s t n hs ht = hs
if-bound false s t n hs ht = ht

encoded-bound : (c : Char) → byte_len (encoded c) ≤ width (code c)
unfolding encoded byte_len
encoded-bound c =
    let one : 1 ≤ width (code c) = width-positive (code c) in
    if-bound (num_eq (code c) 48) "g" _ _ one (
      if-bound (num_eq (code c) 49) "h" _ _ one (
        if-bound (num_eq (code c) 51) "k" _ _ one (
          if-bound (num_eq (code c) 97) "m" _ _ one
            (if-bound (num_eq (code c) 101) "t" (c ∷ []) _ one (omega arith)))))

encode_all-bound : (s : String) → byte_len (encode_all s) ≤ byte_len s
unfolding encode_all byte_len
encode_all-bound [] = omega arith
encode_all-bound (c ∷ s) =
    rw (byte_len-append (encoded c) (encode_all s))
      (omega (arith, encoded-bound c, encode_all-bound s))

encodehash-bound : (s : String) → byte_len ("-" ++ encodehash s) ≤ 11
unfolding encodehash byte_len
encodehash-bound s =
    rw (byte_len-append "-" (encode_all (take_bytes 10 s)))
      (omega (arith, encode_all-bound (take_bytes 10 s), take_bytes-bound 10 s))

shorten-small : (hash : String → String) (s : String) → byte_len s ≤ 63 → shorten hash s ≡ s
unfolding shorten
shorten-small hash s h = ground (arith, h)

shorten-bounded : (hash : String → String) (s : String) → byte_len (shorten hash s) ≤ 63
unfolding shorten
shorten-bounded hash s = elim (Bool-cases (ltb 63 (byte_len s))) [
  | inr short ↦ rw short (ground arith)
  | inl long ↦
      let cut = take_bytes 52 s in
      let code_text = encodehash (hash s) in
      rw long (
        rw (byte_len-append cut ("-" ++ code_text))
          (omega (arith, take_bytes-bound 52 s, encodehash-bound (hash s))))
]

-- A shortened name has at most 63 bytes, whatever the hash of the name, and to shorten it again
-- leaves it as it is.
pub shorten-bound :
    (hash : String → String) (s : String)
    → (byte_len (shorten hash s) ≤ 63) × (shorten hash (shorten hash s) ≡ shorten hash s)
shorten-bound hash s =
    (shorten-bounded hash s, shorten-small hash (shorten hash s) (shorten-bounded hash s))
