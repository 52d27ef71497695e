-- ===== src/Symbols/Search.antt =====
-- src/config.cpp: what the search for a name in several tables of symbols finds.
use fox_os_kernel.Prelude.{
  ℕ, ◌≡◌, refl, sym, ap, ◌∙◌, subst, ◌≢◌, ◌⊎◌, inl, inr, false, none, some, List, [], ◌∷◌, ◌++◌,
  arith, ℕ_discrete, ◌==◌, if◌then◌else◌, ==_iff, ne→==, Bool-cases,
}
use fox_os_kernel.Vfs.{eq_text}
use fox_os_kernel.Vfs.Mounts.{eq_text_sound, eq_text_refl}
use fox_os_kernel.Symbols.{Sym, Symbols, resolve, resolve_among, resolve_symbol}

-- All symbols, the first table first.
abbrev pub all_symbols : List (List Sym) → List Sym
all_symbols [] = []
all_symbols (r ∷ rs) = r ++ all_symbols rs

-- A symbol that the search does not stop at.
abbrev pub IsOther : List ℕ → Sym → Type 0
IsOther name s = (s.st_value ≡ 0) ⊎ (s.name ≢ name)

abbrev pub AllOther : List ℕ → List Sym → Type 0
AllOther name [] = Unit
AllOther name (s ∷ syms) = IsOther name s × AllOther name syms

-- The value is 0 where no symbol has the name, and that of the first symbol that has it otherwise.
abbrev pub Finds : List ℕ → List Sym → ℕ → Type 0
Finds name syms value =
    (AllOther name syms × (value ≡ 0))
    ⊎ ((before : List Sym) × (s : Sym) × (rest : List Sym) × (syms ≡ before ++ (s ∷ rest))
        × AllOther name before
        × (s.st_value ≢ 0)
        × (s.name ≡ name)
        × (value ≡ s.st_value))

passed :
    (name : List ℕ) (s : Sym) (syms : List Sym) (value : ℕ)
    → IsOther name s
    → Finds name syms value
    → Finds name (s ∷ syms) value
passed name s syms value o (inl (all, e)) = inl ((o, all), e)
passed name s syms value o (inr (before, t, rest, e, all, pos, same, value_of)) =
    inr (s ∷ before, t, rest, ap (λ l. s ∷ l) e, (o, all), pos, same, value_of)

eq_text_same : (s t : List ℕ) → s ≡ t → eq_text s t ≡ false → ⊥
eq_text_same s t same e = let told = sym (eq_text_refl s) ∙ ap (eq_text s) same ∙ e in cc told

resolve-Finds : (name : List ℕ) (syms : List Sym) → Finds name syms (resolve syms name)
unfolding resolve
resolve-Finds name [] = inl (tt, refl)
resolve-Finds name (s ∷ syms) =
    let next = resolve syms name in
    let here = if eq_text s.name name then s.st_value else next in
    elim (ℕ_discrete s.st_value 0) [
      | yes z ↦
          subst (Finds name (s ∷ syms))
            (sym (ap (λ b. if b then next else here) ((==_iff s.st_value 0).1 z)))
            (passed name s syms next (inl z) (resolve-Finds name syms))
      | no nz ↦
          subst (Finds name (s ∷ syms))
            (sym (ap (λ b. if b then next else here) (ne→== s.st_value 0 nz)))
            (elim (Bool-cases (eq_text s.name name)) [
              | inl e ↦ inr (
                [],
                s,
                syms,
                refl,
                tt,
                nz,
                eq_text_sound s.name name e,
                ap (λ b. if b then s.st_value else next) e,
              )
              | inr e ↦
                  subst (Finds name (s ∷ syms)) (sym (ap (λ b. if b then s.st_value else next) e)) (
                    passed name s syms next (inr (λ same. eq_text_same s.name name same e))
                      (resolve-Finds name syms))
            ])
    ]

resolve-append :
    (name : List ℕ) (a b : List Sym)
    → resolve (a ++ b) name ≡ (if resolve a name == 0 then resolve b name else resolve a name)
unfolding resolve
resolve-append name [] b = refl
resolve-append name (s ∷ a) b = ground (arith, resolve-append name a b)

resolve_among_lem :
    (name : List ℕ) (rs : List (List Sym)) → resolve_among rs name ≡ resolve (all_symbols rs) name
unfolding resolve_among resolve
resolve_among_lem name [] = refl
resolve_among_lem name (r ∷ rs) =
    ap (λ n. if resolve r name == 0 then n else resolve r name) (resolve_among_lem name rs)
    ∙ sym (resolve-append name r (all_symbols rs))

-- With a resolver of the kernel, `resolve_symbol` gives the value of the first symbol of the kernel and of
-- the registered resolvers, in this order, that has the name and a value other than 0, and 0 where
-- there is none.
pub resolve_symbol-Finds :
    (name : List ℕ) (s : Symbols) (k : List Sym)
    → s.elf_symbol_resolver ≡ some k
    → (value : ℕ) × (resolve_symbol s name ≡ some value)
      × Finds name (all_symbols (k ∷ s.resolvers)) value
unfolding resolve_symbol
resolve_symbol-Finds name s k has = (
  resolve (all_symbols (k ∷ s.resolvers)) name,
  ap
        (λ o. elim o [
          | none ↦ none
          | some t ↦
              some (if resolve t name == 0 then resolve_among s.resolvers name else resolve t name)
        ])
        has
      ∙ ap (λ n. some (if resolve k name == 0 then n else resolve k name))
          (resolve_among_lem name s.resolvers)
      ∙ ap some (sym (resolve-append name k (all_symbols s.resolvers))),
  resolve-Finds name (all_symbols (k ∷ s.resolvers)),
)
