-- ===== src/Listeners/Certs/Laws.antt =====
-- When a text is valid PEM, by the documented behaviour of `pem.Decode`.
use Prim.Native.String.{len}
use Prim.Native.String.len as len_text
use text.Mathlib.TextPositions.{len-append}
use text.Mathlib.TextLemmas.{append_assoc, append-nil}
use controller_powered_by_di.Base.{
  ◌<>◌, ℕ, zero, suc, ◌<◌, String, Bool, true, false, ◌≡◌, ◌≢◌, ◌↔◌, ◌⊎◌, refl, sym, ap, ◌∙◌,
  Option, some_inj, is_some, some, deref_or, arith, Bool-cases, Option-cases, inl, inr,
}
use controller_powered_by_di.Base.Text.{is_empty, is_empty_iff}
use controller_powered_by_di.Model.Hosts.Matching.{len-pos}
use controller_powered_by_di.Listeners.Certs.{pem_loop, is_valid_pem_format}

abbrev pub EndsLine : String → Type 0
EndsLine s = (line : String) × (s ≡ line <> "\n")

-- What stands before the start of a line.
abbrev pub IsLines : String → Type 0
IsLines s = (s ≡ "") ⊎ EndsLine s

append_assoc_four : (a b c d : String) → a <> (b <> (c <> d)) ≡ (a <> (b <> c)) <> d
append_assoc_four a b c d =
    ap (λ x. a <> x) (sym (append_assoc b c d)) ∙ sym (append_assoc a (b <> c) d)

EndsLine-append :
    (before block between : String)
    → EndsLine block
    → IsLines between
    → EndsLine (before <> (block <> between))
EndsLine-append before block between (line, l) (inl nil) = (
  before <> line,
  ap (λ x. before <> (block <> x)) nil
      ∙ ap (λ x. before <> x) (append-nil block ∙ l)
      ∙ sym (append_assoc before line "\n"),
)
EndsLine-append before block between _ (inr (q, e)) = (
  before <> (block <> q),
  ap (λ x. before <> (block <> x)) e ∙ append_assoc_four before block q "\n",
)

-- What is documented of `pem.Decode`, for the blocks that it knows: it finds the next block that
-- starts a line, skips what is before it, and leaves what is behind it.
pub record IsDecode (IsBlock : String → Type 0) (decode : String → Option String) : Type 0 where
  pub filled : (block : String) → IsBlock block → block ≢ ""
  pub sound :
      (b rest : String)
      → decode b ≡ some rest
      → (before block : String) × (b ≡ before <> (block <> rest))
        × IsLines before
        × IsBlock block
        × ((rest ≡ "") ⊎ EndsLine block)
  -- A block at the end of a text is the one that is found, or stays at the end of what is left.
  pub complete :
      (before block : String)
      → IsLines before
      → IsBlock block
      → (rest : String) × (decode (before <> block) ≡ some rest)
        × ((rest ≡ "") ⊎ ((between : String) × (rest ≡ between <> block) × IsLines between))

module _ (IsBlock : String → Type 0) where
  -- The text ends with a block; what is before the block is any text of whole lines.
  abbrev pub EndsWithBlock : String → Type 0
  EndsWithBlock b = (before block : String) × (b ≡ before <> block) × IsLines before × IsBlock block

  abbrev Settled : String → Option Bool → Type 0
  Settled b result = (v : Bool) × (result ≡ some v) × ((v ≡ true) ↔ EndsWithBlock b)

  module _ (decode : String → Option String) (law : IsDecode IsBlock decode) where
    EndsWithBlock-filled : (b : String) → EndsWithBlock b → b ≢ ""
    EndsWithBlock-filled b (before, block, e, _, is_block) empty = omega (
      arith,
      len-pos block (law.filled block is_block),
      len-append before block,
      ap len (sym e ∙ empty),
      len_text.nil,
    )

    decode-shrinks : (b rest : String) → decode b ≡ some rest → len rest < len b
    decode-shrinks b rest next =
        let (before, block, e, _, is_block, _) = law.sound b rest next in
        omega (
          arith,
          ap len e,
          len-append before (block <> rest),
          len-append block rest,
          len-pos block (law.filled block is_block),
        )

    -- Nothing is left behind a block.
    ends-of_last : (b rest : String) → decode b ≡ some rest → rest ≡ "" → EndsWithBlock b
    ends-of_last b rest next done =
        let (before, block, e, lines, is_block, _) = law.sound b rest next in
        (
          before,
          block,
          e ∙ ap (λ x. before <> (block <> x)) done ∙ ap (λ x. before <> x) (append-nil block),
          lines,
          is_block,
        )

    -- What is left behind a block ends with one.
    ends-of_rest : (b rest : String) → decode b ≡ some rest → EndsWithBlock rest → EndsWithBlock b
    ends-of_rest b rest next ends =
        let (before, block, e, lines, is_block, closed) = law.sound b rest next in
        let (between, last, e', lines', is_last) = ends in
        let line : EndsLine block = elim closed [
          | inl none_left ↦ absurd (EndsWithBlock-filled rest ends none_left)
          | inr ending ↦ ending
        ] in
        (
          before <> (block <> between),
          last,
          e ∙ ap (λ x. before <> (block <> x)) e' ∙ append_assoc_four before block between last,
          inr (EndsLine-append before block between line lines'),
          is_last,
        )

    ends_iff_rest :
        (b rest : String) → decode b ≡ some rest → rest ≢ "" → EndsWithBlock b ↔ EndsWithBlock rest
    ends_iff_rest b rest next left = (
      (λ (before, block, e, lines, is_block).
          let (other, found, cases) = law.complete before block lines is_block in
          let same : other ≡ rest = some_inj (sym found ∙ ap decode (sym e) ∙ next) in
          elim cases [
            | inl done ↦ absurd (left (sym same ∙ done))
            | inr (between, e', lines') ↦ (between, block, sym same ∙ e', lines', is_block)
          ]),
      ends-of_rest b rest next,
    )

    found : (b : String) → EndsWithBlock b → (rest : String) × (decode b ≡ some rest)
    found b (before, block, e, lines, is_block) =
        let (rest, next, _) = law.complete before block lines is_block in (rest, ap decode e ∙ next)

    pem_loop-Settled : (fuel : ℕ) (b : String) → len b < fuel → Settled b (pem_loop decode fuel b)
    unfolding pem_loop
    pem_loop-Settled zero b h = absurd (omega (arith, h))
    pem_loop-Settled (suc fuel) b h = elim (Bool-cases (is_empty b)) [
      | inl empty ↦ rw empty (
        false,
        refl,
        ((λ e. cc), λ ends. absurd (EndsWithBlock-filled b ends ((is_empty_iff b).0 empty))),
      )
      | inr filled ↦ rw filled (elim (Option-cases (decode b)) [
        | inl stop ↦ rw stop (false, refl, ((λ e. cc), λ ends. cc (stop, (found b ends).1)))
        | inr (rest, next) ↦ rw next (elim (Bool-cases (is_empty rest)) [
          | inl done ↦ rw done (
            true,
            refl,
            ((λ _. ends-of_last b rest next ((is_empty_iff rest).0 done)), λ _. refl),
          )
          | inr left ↦
              let (v, e, iff) =
                pem_loop-Settled fuel rest (omega (arith, h, decode-shrinks b rest next)) in
              let (down, up) =
                ends_iff_rest b rest next (λ nil. cc (left, (is_empty_iff rest).1 nil)) in
              rw left (v, e, ((λ t. up (iff.0 t)), λ ends. iff.1 (down ends)))
        ])
      ])
    ]

    -- For the documented behaviour of `pem.Decode`, the recursion over the blocks of a text has
    -- enough fuel, and the text is valid exactly where it ends with a block. What is before that
    -- block is any text of whole lines; anything behind the last block makes the text invalid.
    pub is_valid_pem_format_iff :
        (b : String)
        → (is_some (pem_loop decode (suc (len b)) b) ≡ true)
          × ((is_valid_pem_format decode b ≡ true) ↔ EndsWithBlock b)
    unfolding is_valid_pem_format
    is_valid_pem_format_iff b =
        let (v, e, iff) = pem_loop-Settled (suc (len b)) b (omega arith) in
        let same : is_valid_pem_format decode b ≡ v = ap (λ o. deref_or o false) e in
        (ap is_some e, ((λ h. iff.0 (sym same ∙ h)), λ ends. same ∙ iff.1 ends))
