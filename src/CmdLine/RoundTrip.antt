-- ===== src/CmdLine/RoundTrip.antt =====
-- src/cmdline.cpp: a list of options is read back from the command line that spells it.
use fox_os_kernel.Prelude.{
  ℕ, ◌<◌, ◌≡◌, refl, ap, ap₂, ◌∙◌, ◌≢◌, Option, none, some, List, [], ◌∷◌, ◌++◌, map, arith,
  if◌then◌else◌, ne→==, length,
}
use fox_os_kernel.NodeList.{NodeList, find_node}
use fox_os_kernel.CmdLine.{
  Action, find_handler, in_front, cut_assignment, dispatch, parse_token, onto_first, tokens, parse,
}

abbrev pub Lacks : ℕ → List ℕ → Type 0
Lacks b [] = Unit
Lacks b (c ∷ s) = (c ≢ b) × Lacks b s

-- An option: its name, and its value if it has one.
abbrev pub Setting : Type 0
Setting = List ℕ × Option (List ℕ)

abbrev pub spell : Setting → List ℕ
spell (name, none) = name
spell (name, some value) = name ++ (b'=' ∷ value)

abbrev pub IsSetting : Setting → Type 0
IsSetting (name, none) = Lacks b'=' name × Lacks 32 name
IsSetting (name, some value) = Lacks b'=' name × Lacks 32 name × Lacks 32 value

abbrev pub AllSettings : List Setting → Type 0
AllSettings [] = Unit
AllSettings (o ∷ options) = IsSetting o × AllSettings options

-- The options, each but the first behind a space.
abbrev pub spell_all : Setting → List Setting → List ℕ
spell_all o [] = spell o
spell_all o (p ∷ options) = spell o ++ (32 ∷ spell_all p options)

cut-spell : (o : Setting) → IsSetting o → cut_assignment (spell o) ≡ o
unfolding cut_assignment
cut-spell ([], none) h = refl
cut-spell ([], some value) h = refl
cut-spell (c ∷ name, none) h =
    ap (λ b. if b then ([], some name) else (c ∷ (cut_assignment name).0, (cut_assignment name).1))
      (ne→== c b'=' h.0.0)
    ∙ ap (λ r. (c ∷ r.0, r.1)) (cut-spell (name, none) (h.0.1, h.1.1))
cut-spell (c ∷ name, some value) h =
    ap
      (λ b.
        if b
        then ([], some (name ++ (b'=' ∷ value)))
        else in_front c (cut_assignment (name ++ (b'=' ∷ value))))
      (ne→== c b'=' h.0.0)
    ∙ ap (in_front c) (cut-spell (name, some value) (h.0.1, h.1.1, h.2))

tokens_last : (s : List ℕ) → Lacks 32 s → tokens s ≡ s ∷ []
unfolding tokens
tokens_last [] h = refl
tokens_last (c ∷ s) h =
    ap (λ b. if b then [] ∷ tokens s else onto_first c (tokens s)) (ne→== c 32 h.0)
    ∙ ap (onto_first c) (tokens_last s h.1)

tokens_more : (s rest : List ℕ) → Lacks 32 s → tokens (s ++ (32 ∷ rest)) ≡ s ∷ tokens rest
unfolding tokens
tokens_more [] rest h = refl
tokens_more (c ∷ s) rest h =
    ap (λ b. if b then [] ∷ tokens (s ++ (32 ∷ rest)) else onto_first c (tokens (s ++ (32 ∷ rest))))
      (ne→== c 32 h.0)
    ∙ ap (onto_first c) (tokens_more s rest h.1)

Lacks-append : (b : ℕ) (s t : List ℕ) → Lacks b s → Lacks b t → Lacks b (s ++ t)
Lacks-append b [] t h k = k
Lacks-append b (c ∷ s) t h k = (h.0, Lacks-append b s t h.1 k)

spell-Lacks : (o : Setting) → IsSetting o → Lacks 32 (spell o)
spell-Lacks (name, none) h = h.1
spell-Lacks (name, some value) h =
    Lacks-append 32 name (b'=' ∷ value) h.1 ((λ e. absurd (omega (arith, e))), h.2)

tokens-spell_all :
    (o : Setting) (options : List Setting)
    → IsSetting o
    → AllSettings options
    → tokens (spell_all o options) ≡ map spell (o ∷ options)
tokens-spell_all o [] h k = tokens_last (spell o) (spell-Lacks o h)
tokens-spell_all o (p ∷ options) h k =
    tokens_more (spell o) (spell_all p options) (spell-Lacks o h)
    ∙ ap (λ l. spell o ∷ l) (tokens-spell_all p options k.0 k.1)

-- What `parse` does with an option: a call of the first handler that has its name, or the message.
abbrev pub applied : (ℕ → List ℕ) → NodeList → Setting → Action
applied text l o = dispatch l o (find_node (find_handler text o.0) l)

parse_token-spell :
    (text : ℕ → List ℕ) (l : NodeList) (options : List Setting)
    → AllSettings options
    → map (parse_token text l) (map spell options) ≡ map (applied text l) options
unfolding parse_token
parse_token-spell text l [] h = refl
parse_token-spell text l (o ∷ options) h =
    ap₂ (λ a rest. a ∷ rest) (ap (applied text l) (cut-spell o h.0))
      (parse_token-spell text l options h.1)

parse-tokens :
    (text : ℕ → List ℕ) (l : NodeList) (s : List ℕ)
    → 0 < length s
    → parse text l s ≡ map (parse_token text l) (tokens s)
unfolding parse
parse-tokens text l [] h = absurd (omega arith)
parse-tokens text l (c ∷ s) h = refl

-- A list of options, where a name has no `=` and no space and a value no space, spelled with a space
-- between two of them as a line that is not empty: `parse` treats exactly these options, in their
-- order, each by the first handler of its name, with its value.
pub parse-spell_all :
    (text : ℕ → List ℕ) (l : NodeList) (o : Setting) (options : List Setting)
    → IsSetting o
    → AllSettings options
    → 0 < length (spell_all o options)
    → parse text l (spell_all o options) ≡ map (applied text l) (o ∷ options)
parse-spell_all text l o options h k some_text =
    parse-tokens text l (spell_all o options) some_text
    ∙ ap (map (parse_token text l)) (tokens-spell_all o options h k)
    ∙ parse_token-spell text l (o ∷ options) (h, k)
