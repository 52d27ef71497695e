-- ===== src/Keyboard/Letters.antt =====
-- src/driver/keyboard.cpp: the letters of the three layouts.
use fox_os_kernel.Prelude.{
  ℕ, ◌+◌, ◌-◌, ◌≤◌, ◌<◌, ◌≡◌, refl, sym, ap₂, ◌∙◌, inl, inr, Bool, true, false, ◌&&◌, ◌||◌, leb,
  ◌==◌, if◌then◌else◌, le→leb, ==_iff, Bool-cases, all_below, all_below_sound, count,
}
use fox_os_kernel.Keyboard.German.{keymap_de}
use fox_os_kernel.Keyboard.French.{keymap_fr}
use fox_os_kernel.Keyboard.Us.{keymap_us}

-- `KeyboardDriver::handle` takes the layout by its number.
abbrev pub layout : ℕ → ℕ → Bool → Bool → Bool → ℕ
layout n = if n == 0 then keymap_de else if n == 1 then keymap_fr else keymap_us

-- A key that gives a small letter gives the capital with a shift.
abbrev shift_test : (ℕ → Bool → Bool → Bool → ℕ) → ℕ → Bool
shift_test keymap key =
    let c = keymap key false false false in
    if leb 97 c && leb c 122 then keymap key true false false == c - 32 else true

-- Exactly one key gives the letter.
abbrev once_test : (ℕ → Bool → Bool → Bool → ℕ) → ℕ → Bool
once_test keymap letter = count (λ key. keymap key false false false == 97 + letter) 256 == 1

shift_below : all_below 3 (λ n. all_below 256 (shift_test (layout n))) ≡ true
unfolding all_below keymap_de keymap_fr keymap_us
shift_below = refl

once_below : all_below 3 (λ n. all_below 26 (once_test (layout n))) ≡ true
unfolding all_below keymap_de keymap_fr keymap_us count
once_below = refl

-- In each of the three layouts each of the 26 small letters is on exactly one of the 256 keys.
pub letter_once :
    (n letter : ℕ)
    → n < 3
    → letter < 26
    → count (λ key. layout n key false false false == 97 + letter) 256 ≡ 1
letter_once n letter below small =
    (==_iff (count (λ key. layout n key false false false == 97 + letter) 256) 1).0 (
      all_below_sound 26 (once_test (layout n)) letter
        (all_below_sound 3 (λ k. all_below 26 (once_test (layout k))) n once_below below) small)

-- Which of the modifiers is on does not matter.
modified :
    (n key : ℕ) (l r c : Bool)
    → (l || r || c) ≡ true
    → layout n key l r c ≡ layout n key true false false
unfolding keymap_de keymap_fr keymap_us
modified n key l r c on = elim (Bool-cases (n == 0)) [
  | inl e ↦ rw (e, on) refl
  | inr e ↦ elim (Bool-cases (n == 1)) [ inl f ↦ rw (e, f, on) refl | inr f ↦ rw (e, f, on) refl ]
]

-- In each of the three layouts a key that gives a small letter gives the capital letter, 32 below it, when
-- one of the shifts or the caps lock is on.
pub shift_capital :
    (n key : ℕ) (l r c : Bool)
    → n < 3
    → key < 256
    → 97 ≤ layout n key false false false
    → layout n key false false false ≤ 122
    → (l || r || c) ≡ true
    → layout n key l r c ≡ layout n key false false false - 32
shift_capital n key l r c below byte low high on =
    let small = layout n key false false false in
    let test =
      all_below_sound 256 (shift_test (layout n)) key
        (all_below_sound 3 (λ k. all_below 256 (shift_test (layout k))) n shift_below below) byte in
    modified n key l r c on
    ∙ (==_iff (layout n key true false false) (small - 32)).0 (
        sym (
          ap₂ (λ x y. if x && y then layout n key true false false == small - 32 else true)
            (le→leb 97 small low) (le→leb small 122 high))
        ∙ test)
