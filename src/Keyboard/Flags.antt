-- ===== src/Keyboard/Flags.antt =====
-- src/driver/keyboard.cpp: the state of the modifiers after any sequence of scan codes.
use fox_os_kernel.Prelude.{
  ℕ, ◌≡◌, refl, sym, ap, ap₂, ◌∙◌, subst, inl, inr, Bool, true, false, not, List, [], ◌∷◌, arith,
  ◌==◌, if◌then◌else◌, Bool-cases,
}
use fox_os_kernel.Keyboard.Switch.{switch}
use fox_os_kernel.Keyboard.Handler.{
  KeyboardDriver, extended_cases, typed, plain_cases, handle, handle_all,
}

-- The codes that are neither the prefix 0xE0 nor behind one; a prefix may have come before.
abbrev pub plain_codes : Bool → List ℕ → List ℕ
plain_codes prefixed [] = []
plain_codes true (key ∷ keys) = plain_codes false keys
plain_codes false (key ∷ keys) =
    if key == 0xE0 then plain_codes true keys else key ∷ plain_codes false keys

-- Whether a key with these two codes is held after the codes.
abbrev pub held : ℕ → ℕ → Bool → List ℕ → Bool
held down up now [] = now
held down up now (key ∷ keys) =
    held down up (if key == down then true else if key == up then false else now) keys

abbrev pub toggled : ℕ → Bool → List ℕ → Bool
toggled down now [] = now
toggled down now (key ∷ keys) = toggled down (if key == down then not now else now) keys

-- What one key that is not the prefix does.
record Step (key : ℕ) (d e : KeyboardDriver) : Type 0 where
  has_handler : e.has_handler ≡ d.has_handler
  keymap : e.keymap ≡ d.keymap
  l_shift : e.l_shift ≡ (if key == 0x2A then true else if key == 0xAA then false else d.l_shift)
  r_shift : e.r_shift ≡ (if key == 0x36 then true else if key == 0xB6 then false else d.r_shift)
  caps_lock : e.caps_lock ≡ (if key == 0x3A then not d.caps_lock else d.caps_lock)
  extended_ascii : e.extended_ascii ≡ d.extended_ascii

switch-Step :
    (key : ℕ) (d : KeyboardDriver)
    → (key == 0xE0) ≡ false
    → Step key d (switch (typed key d, d) (plain_cases d) key).1
unfolding switch
switch-Step key d other = ground arith

-- The state `e` after the codes, in the state `d` before them.
pub record After (keys : List ℕ) (d e : KeyboardDriver) : Type 0 where
  pub keymap : e.keymap ≡ d.keymap
  pub l_shift : e.l_shift ≡ held 0x2A 0xAA d.l_shift (plain_codes d.extended_ascii keys)
  pub r_shift : e.r_shift ≡ held 0x36 0xB6 d.r_shift (plain_codes d.extended_ascii keys)
  pub caps_lock : e.caps_lock ≡ toggled 0x3A d.caps_lock (plain_codes d.extended_ascii keys)

codes_prefixed :
    (key : ℕ) (keys : List ℕ) (b : Bool)
    → b ≡ true
    → plain_codes false keys ≡ plain_codes b (key ∷ keys)
codes_prefixed key keys b e = ap (λ c. plain_codes c (key ∷ keys)) (sym e)

codes_prefix :
    (key : ℕ) (keys : List ℕ) (b : Bool)
    → b ≡ false
    → (key == 0xE0) ≡ true
    → plain_codes true keys ≡ plain_codes b (key ∷ keys)
codes_prefix key keys b e p =
    sym (ap (λ c. if c then plain_codes true keys else key ∷ plain_codes false keys) p)
    ∙ ap (λ c. plain_codes c (key ∷ keys)) (sym e)

codes_plain :
    (key : ℕ) (keys : List ℕ) (b : Bool)
    → b ≡ false
    → (key == 0xE0) ≡ false
    → key ∷ plain_codes false keys ≡ plain_codes b (key ∷ keys)
codes_plain key keys b e p =
    sym (ap (λ c. if c then plain_codes true keys else key ∷ plain_codes false keys) p)
    ∙ ap (λ c. plain_codes c (key ∷ keys)) (sym e)

handle_behind :
    (key : ℕ) (d : KeyboardDriver)
    → d.has_handler ≡ true
    → d.extended_ascii ≡ true
    → (handle key d).1 ≡ record d { extended_ascii = false }
unfolding handle
handle_behind key d on ext =
    ap₂
      (λ b c.
        (if not b
          then ([], d)
          else if c
          then (switch [] extended_cases key, record d { extended_ascii = false })
          else switch (typed key d, d) (plain_cases d) key).1)
      on ext

handle_plain :
    (key : ℕ) (d : KeyboardDriver)
    → d.has_handler ≡ true
    → d.extended_ascii ≡ false
    → (handle key d).1 ≡ (switch (typed key d, d) (plain_cases d) key).1
unfolding handle
handle_plain key d on ext =
    ap₂
      (λ b c.
        (if not b
          then ([], d)
          else if c
          then (switch [] extended_cases key, record d { extended_ascii = false })
          else switch (typed key d, d) (plain_cases d) key).1)
      on ext

switch_prefix :
    (key : ℕ) (d : KeyboardDriver)
    → (key == 0xE0) ≡ true
    → (switch (typed key d, d) (plain_cases d) key).1 ≡ record d { extended_ascii = true }
unfolding switch
switch_prefix key d p = rw p refl

After-behind :
    (key : ℕ) (keys : List ℕ) (d e : KeyboardDriver)
    → d.extended_ascii ≡ true
    → After keys (record d { extended_ascii = false }) e
    → After (key ∷ keys) d e
After-behind key keys d e ext a =
    let codes = codes_prefixed key keys d.extended_ascii ext in
    record {
      keymap = a.keymap;
      l_shift = a.l_shift ∙ ap (held 0x2A 0xAA d.l_shift) codes;
      r_shift = a.r_shift ∙ ap (held 0x36 0xB6 d.r_shift) codes;
      caps_lock = a.caps_lock ∙ ap (toggled 0x3A d.caps_lock) codes;
    }

After-prefix :
    (key : ℕ) (keys : List ℕ) (d e : KeyboardDriver)
    → d.extended_ascii ≡ false
    → (key == 0xE0) ≡ true
    → After keys (record d { extended_ascii = true }) e
    → After (key ∷ keys) d e
After-prefix key keys d e ext p a =
    let codes = codes_prefix key keys d.extended_ascii ext p in
    record {
      keymap = a.keymap;
      l_shift = a.l_shift ∙ ap (held 0x2A 0xAA d.l_shift) codes;
      r_shift = a.r_shift ∙ ap (held 0x36 0xB6 d.r_shift) codes;
      caps_lock = a.caps_lock ∙ ap (toggled 0x3A d.caps_lock) codes;
    }

After-plain :
    (key : ℕ) (keys : List ℕ) (d c e : KeyboardDriver)
    → d.extended_ascii ≡ false
    → (key == 0xE0) ≡ false
    → Step key d c
    → After keys c e
    → After (key ∷ keys) d e
After-plain key keys d c e ext p s a =
    let codes = codes_plain key keys d.extended_ascii ext p in
    let still = ap (λ b. plain_codes b keys) (s.extended_ascii ∙ ext) in
    record {
      keymap = a.keymap ∙ s.keymap;
      l_shift =
          a.l_shift ∙ ap₂ (held 0x2A 0xAA) s.l_shift still ∙ ap (held 0x2A 0xAA d.l_shift) codes;
      r_shift =
          a.r_shift ∙ ap₂ (held 0x36 0xB6) s.r_shift still ∙ ap (held 0x36 0xB6 d.r_shift) codes;
      caps_lock =
          a.caps_lock ∙ ap₂ (toggled 0x3A) s.caps_lock still ∙ ap (toggled 0x3A d.caps_lock) codes;
    }

followed :
    (keys : List ℕ) (key : ℕ) (d : KeyboardDriver)
    → ((c : KeyboardDriver) → c.has_handler ≡ true → After keys c (handle_all keys c).1)
    → (c : KeyboardDriver) → (handle key d).1 ≡ c
    → c.has_handler ≡ true
    → After keys c (handle_all keys (handle key d).1).1
followed keys key d all c e on = subst (λ x. After keys c (handle_all keys x).1) (sym e) (all c on)

-- Any sequence of scan codes, with a handler: the left shift, the right shift and the caps lock depend
-- only on the codes that are neither a prefix 0xE0 nor behind one, a shift is on when the last of its
-- two codes there was that of the key going down, the caps lock changes with each of its key going
-- down, and the layout stays.
pub handle_all-After :
    (keys : List ℕ) (d : KeyboardDriver) → d.has_handler ≡ true → After keys d (handle_all keys d).1
unfolding handle_all
handle_all-After [] d on = record {
  keymap = refl;
  l_shift = refl;
  r_shift = refl;
  caps_lock = refl;
}
handle_all-After (key ∷ keys) d on = elim (Bool-cases d.extended_ascii) [
  | inl ext ↦ After-behind key keys d (handle_all keys (handle key d).1).1 ext (
      followed keys key d (λ c. handle_all-After keys c) (record d { extended_ascii = false })
        (handle_behind key d on ext) on)
  | inr ext ↦ elim (Bool-cases (key == 0xE0)) [
    | inl p ↦ After-prefix key keys d (handle_all keys (handle key d).1).1 ext p (
        followed keys key d (λ c. handle_all-After keys c) (record d { extended_ascii = true })
          (handle_plain key d on ext ∙ switch_prefix key d p) on)
    | inr p ↦
        let c = (switch (typed key d, d) (plain_cases d) key).1 in
        let s = switch-Step key d p in
        After-plain key keys d c (handle_all keys (handle key d).1).1 ext p s (
          followed keys key d (λ x. handle_all-After keys x) c (handle_plain key d on ext)
            (s.has_handler ∙ on))
  ]
]
