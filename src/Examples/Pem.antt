-- ===== src/Examples/Pem.antt =====
-- A decoder that stands in for `pem.Decode`, with an empty line as a block, and a text that it
-- leaves: it skips whole lines before a block.
use Prim.Native.Char.{Char, code}
use Prim.Native.String.{[], ◌∷◌, len}
use text.Mathlib.TextEquality.{Char-path}
use text.Mathlib.TextLemmas.{
  nil-append, cons-append, cons-ne-nil, append-ne-nil_of_right_ne-nil, head-eq_of_cons-eq,
  tail-eq_of_cons-eq,
}
use controller_powered_by_di.Base.{
  ◌<>◌, suc, String, Bool, true, false, ◌≡◌, ◌↔◌, ◌⊎◌, refl, sym, ap, ◌∙◌, Option, none, some,
  some_inj, is_some, if◌then◌else◌, num_eq, arith, Bool-cases, inl, inr,
}
use controller_powered_by_di.Listeners.Certs.{pem_loop, is_valid_pem_format}
use controller_powered_by_di.Listeners.Certs.Laws.{
  EndsLine, IsLines, IsDecode, EndsWithBlock, is_valid_pem_format_iff,
}

abbrev newline : Char
newline = "\n"

-- From the start of a line or from inside of one.
scan : Bool → String → Option String
scan start [] = none
scan true (c ∷ s) = if num_eq (code c) 10 then some s else scan false s
scan false (c ∷ s) = let rest = scan true s in if num_eq (code c) 10 then rest else scan false s

unfoldable pub decode : String → Option String
unfolding scan
decode = scan true

abbrev IsEmptyLine : String → Type 0
IsEmptyLine block = block ≡ "\n"

is_newline : (c : Char) → num_eq (code c) 10 ≡ true → c ≡ newline
is_newline c h = Char-path c newline (ground arith)

-- What is skipped from there.
abbrev IsSkipped : Bool → String → Type 0
IsSkipped true s = IsLines s
IsSkipped false s = EndsLine s

EndsLine-cons : (c : Char) (s : String) → EndsLine s → EndsLine (c ∷ s)
EndsLine-cons c s (line, e) = (c ∷ line, ap (λ x. c ∷ x) e ∙ sym (cons-append c line "\n"))

EndsLine-uncons :
    (c : Char) (s : String) → EndsLine (c ∷ s) → ((s ≡ []) × (c ≡ newline)) ⊎ EndsLine s
EndsLine-uncons c s ([], e) =
    let e' = e ∙ nil-append "\n" in inl (tail-eq_of_cons-eq e', head-eq_of_cons-eq e')
EndsLine-uncons c s (d ∷ line, e) = inr (line, tail-eq_of_cons-eq (e ∙ cons-append d line "\n"))

newline-EndsLine : (c : Char) (s : String) → c ≡ newline → IsLines s → EndsLine (c ∷ s)
newline-EndsLine c s e (inl nil) = ([], ap (λ x. x ∷ s) e ∙ ap (λ x. newline ∷ x) nil)
newline-EndsLine c s e (inr ends) = EndsLine-cons c s ends

newline_behind : (rest : String) → "" <> ("\n" <> rest) ≡ newline ∷ rest
newline_behind rest =
    nil-append ("\n" <> rest)
    ∙ cons-append newline [] rest
    ∙ ap (λ x. newline ∷ x) (nil-append rest)

scan_sound :
    (start : Bool) (b rest : String)
    → scan start b ≡ some rest
    → (before : String) × (b ≡ before <> ("\n" <> rest)) × IsSkipped start before
unfolding scan
scan_sound start [] rest e = cc
scan_sound true (c ∷ s) rest e = elim (Bool-cases (num_eq (code c) 10)) [
  | inl hit ↦ (
    [],
    ap (λ x. x ∷ s) (is_newline c hit)
        ∙ ap (λ x. newline ∷ x) (some_inj (rw hit at e))
        ∙ sym (newline_behind rest),
    inl refl,
  )
  | inr miss ↦
      let (before, e', ends) = scan_sound false s rest (rw miss at e) in
      (
        c ∷ before,
        ap (λ x. c ∷ x) e' ∙ sym (cons-append c before ("\n" <> rest)),
        inr (EndsLine-cons c before ends),
      )
]
scan_sound false (c ∷ s) rest e = elim (Bool-cases (num_eq (code c) 10)) [
  | inl hit ↦
      let (before, e', lines) = scan_sound true s rest (rw hit at e) in
      (
        c ∷ before,
        ap (λ x. c ∷ x) e' ∙ sym (cons-append c before ("\n" <> rest)),
        newline-EndsLine c before (is_newline c hit) lines,
      )
  | inr miss ↦
      let (before, e', ends) = scan_sound false s rest (rw miss at e) in
      (
        c ∷ before,
        ap (λ x. c ∷ x) e' ∙ sym (cons-append c before ("\n" <> rest)),
        EndsLine-cons c before ends,
      )
]

-- The end of the first line, and of the lines behind it.
IsLines-behind : (c : Char) (s : String) → EndsLine (c ∷ s) → IsLines s
IsLines-behind c s ends = elim (EndsLine-uncons c s ends) [ inl (nil, _) ↦ inl nil | inr e ↦ inr e ]

line_goes_on : (c : Char) (s : String) → num_eq (code c) 10 ≡ false → EndsLine (c ∷ s) → EndsLine s
line_goes_on c s miss ends = elim (EndsLine-uncons c s ends) [
  | inl (_, is) ↦ cc (miss, ap (λ x. num_eq (code x) 10) is)
  | inr e ↦ e
]

abbrev Left : String → Type 0
Left rest = (rest ≡ "") ⊎ ((between : String) × (rest ≡ between <> "\n") × IsLines between)

scan_complete :
    (start : Bool) (before : String)
    → IsSkipped start before
    → (rest : String) × (scan start (before <> "\n") ≡ some rest) × Left rest
unfolding scan
scan_complete true [] h = ("", refl, inl refl)
scan_complete false [] (line, e) =
    absurd (append-ne-nil_of_right_ne-nil line (cons-ne-nil newline []) (sym e))
scan_complete true (c ∷ s) h =
    let ends : EndsLine (c ∷ s) = elim h [
      | inl nil ↦ absurd (cons-ne-nil c s nil)
      | inr ends ↦ ends
    ] in
    elim (Bool-cases (num_eq (code c) 10)) [
      | inl hit ↦
          rw (cons-append c s "\n", hit) (s <> "\n", refl, inr (s, refl, IsLines-behind c s ends))
      | inr miss ↦
          rw (cons-append c s "\n", miss) (scan_complete false s (line_goes_on c s miss ends))
    ]
scan_complete false (c ∷ s) h = elim (Bool-cases (num_eq (code c) 10)) [
  | inl hit ↦ rw (cons-append c s "\n", hit) (scan_complete true s (IsLines-behind c s h))
  | inr miss ↦ rw (cons-append c s "\n", miss) (scan_complete false s (line_goes_on c s miss h))
]

decode-IsDecode : IsDecode IsEmptyLine decode
unfolding decode
decode-IsDecode = record {
  filled = λ block e empty. cons-ne-nil newline [] (sym e ∙ empty);
  sound = λ b rest next.
      let (before, e, lines) = scan_sound true b rest next in
      (before, "\n", e, lines, refl, inr ("", refl));
  complete = λ before block lines e. rw e (scan_complete true before lines);
}

-- Two blocks with text before each.
abbrev sample : String
sample = "one\n\ntwo\n\n"

sample_valid : is_valid_pem_format decode sample ≡ true
unfolding is_valid_pem_format decode
sample_valid = refl

-- The line behind the last block makes it invalid.
longer_sample_invalid : is_valid_pem_format decode (sample <> "three\n") ≡ false
unfolding is_valid_pem_format decode
longer_sample_invalid = refl

is_valid_pem_format_iff_example :
    (is_some (pem_loop decode (suc (len sample)) sample) ≡ true)
    × ((is_valid_pem_format decode sample ≡ true) ↔ EndsWithBlock IsEmptyLine sample)
is_valid_pem_format_iff_example = is_valid_pem_format_iff IsEmptyLine decode decode-IsDecode sample
