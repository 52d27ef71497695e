-- ===== src/Format/Escape.antt =====
-- src/string.cpp: `vsprintf` prints text without directives as it is, and `%%` as `%`.
use fox_os_kernel.Prelude.{
  ℕ, zero, suc, ◌≤◌, ◌≡◌, refl, sym, ap, ap₂, ◌∙◌, subst, inl, inr, Bool, false, Option, none, some,
  List, [], ◌∷◌, ◌++◌, append-nil, append_assoc, arith, ◌==◌, if◌then◌else◌, ==_iff, Bool-cases,
  length,
}
use fox_os_kernel.Format.Printf.{Printer, print, step, print_all, vsprintf, directive}
use fox_os_kernel.Format.Directive.{parse_directive}

-- The text with each `%` doubled.
abbrev pub escape : List ℕ → List ℕ
escape [] = []
escape (c ∷ s) = let rest = escape s in if c == b'%' then b'%' ∷ b'%' ∷ rest else c ∷ rest

-- One round prints the character.
abbrev Prints : (ℕ → List ℕ) → List ℕ → Printer → Option Printer → Type 0
Prints text s p none = ⊥
Prints text s p (some q) = (q.written ≡ p.written ++ s) × (q.stores ≡ p.stores)

percent_step :
    (text : ℕ → List ℕ) (p : Printer) (rest : List ℕ)
    → step text p b'%' (b'%' ∷ rest) ≡ some (print p (b'%' ∷ []) p.args rest)
unfolding step
percent_step text p rest = refl

plain_step :
    (text : ℕ → List ℕ) (p : Printer) (c : ℕ) (rest : List ℕ)
    → (c == b'%') ≡ false
    → step text p c rest ≡ some (print p (c ∷ []) p.args rest)
unfolding step
plain_step text p c rest e =
    ap
      (λ b.
        if b
        then directive text p (parse_directive rest p.args)
        else some (print p (c ∷ []) p.args rest))
      e

print_all-step :
    (fuel : ℕ) (text : ℕ → List ℕ) (p q : Printer) (c : ℕ) (fmt : List ℕ)
    → step text p c fmt ≡ some q
    → print_all (suc fuel) text p (c ∷ fmt) ≡ print_all fuel text q q.fmt
unfolding print_all
print_all-step fuel text p q c fmt e =
    ap (λ o. elim o [ none ↦ none | some r ↦ print_all fuel text r r.fmt ]) e

cons-Prints :
    (text : ℕ → List ℕ) (p : Printer) (c : ℕ) (s rest : List ℕ) (o : Option Printer)
    → Prints text s (print p (c ∷ []) p.args rest) o
    → Prints text (c ∷ s) p o
cons-Prints text p c s rest none h = h
cons-Prints text p c s rest (some q) h = (h.0 ∙ append_assoc p.written (c ∷ []) s, h.1)

one_more :
    (text : ℕ → List ℕ) (p : Printer) (c : ℕ) (s rest : List ℕ) (fuel : ℕ) (l : List ℕ)
    → print_all (suc fuel) text p l ≡ print_all fuel text (print p (c ∷ []) p.args rest) rest
    → Prints text s
        (print p (c ∷ []) p.args rest)
        (print_all fuel text (print p (c ∷ []) p.args rest) rest)
    → Prints text (c ∷ s) p (print_all (suc fuel) text p l)
one_more text p c s rest fuel l e h =
    subst (Prints text (c ∷ s) p) (sym e) (cons-Prints text p c s rest _ h)

length-escape : (s : List ℕ) → length s ≤ length (escape s)
length-escape [] = omega arith
length-escape (c ∷ s) = ground (arith, length-escape s)

print_all-escape :
    (fuel : ℕ) (text : ℕ → List ℕ) (p : Printer) (s : List ℕ)
    → length s ≤ fuel
    → Prints text s p (print_all fuel text p (escape s))
unfolding print_all
print_all-escape zero text p [] h = (sym (append-nil p.written), refl)
print_all-escape (suc fuel) text p [] h = (sym (append-nil p.written), refl)
print_all-escape zero text p (c ∷ s) h = absurd (omega arith)
print_all-escape (suc fuel) text p (c ∷ s) h =
    let all = λ (b : Bool). if b then b'%' ∷ b'%' ∷ escape s else c ∷ escape s in
    elim (Bool-cases (c == b'%')) [
      | inl e ↦
          let q : Printer = print p (b'%' ∷ []) p.args (escape s) in
          subst (λ l. Prints text (c ∷ s) p (print_all (suc fuel) text p l)) (sym (ap all e))
            (subst
              (λ x. Prints text (x ∷ s) p (print_all (suc fuel) text p (b'%' ∷ b'%' ∷ escape s)))
              (sym ((==_iff c b'%').0 e))
              (one_more text p b'%' s (escape s) fuel (b'%' ∷ b'%' ∷ escape s)
                (print_all-step fuel text p q b'%' (b'%' ∷ escape s)
                  (percent_step text p (escape s)))
                (print_all-escape fuel text q s (omega arith))))
      | inr e ↦
          let q : Printer = print p (c ∷ []) p.args (escape s) in
          subst (λ l. Prints text (c ∷ s) p (print_all (suc fuel) text p l)) (sym (ap all e))
            (one_more text p c s (escape s) fuel (c ∷ escape s)
              (print_all-step fuel text p q c (escape s) (plain_step text p c (escape s) e))
              (print_all-escape fuel text q s (omega arith)))
    ]

printed :
    (text : ℕ → List ℕ) (s : List ℕ) (p : Printer) (o : Option Printer)
    → p.written ≡ []
    → p.stores ≡ []
    → Prints text s p o
    → Path
        (Option (List ℕ × List (ℕ × ℕ)))
        (elim o [ none ↦ none | some q ↦ some (q.written, q.stores) ])
        (some (s, []))
printed text s p none w t h = absurd h
printed text s p (some q) w t h = ap₂ (λ a b. some (a, b)) (h.0 ∙ ap (λ l. l ++ s) w) (h.1 ∙ t)

-- Text in which each `%` is doubled, with any arguments: `vsprintf` prints the text as it was, within as
-- many rounds as the format has characters, and stores nothing.
pub vsprintf-escape :
    (text : ℕ → List ℕ) (s args : List ℕ) → vsprintf text (escape s) args ≡ some (s, [])
unfolding vsprintf
vsprintf-escape text s args =
    let p : Printer = record { written = []; stores = []; args = args; fmt = escape s } in
    printed text s p (print_all (length (escape s)) text p (escape s)) refl refl
      (print_all-escape (length (escape s)) text p s (length-escape s))
