-- ===== src/Strings/Copy.antt =====
-- src/string.cpp: the routines that write.
use fox_os_kernel.Prelude.{
  ℕ, zero, suc, ◌+◌, ◌-◌, ◌≤◌, ◌<◌, ◌≡◌, refl, sym, ap, ◌∙◌, ◌≢◌, ◌⊎◌, inl, inr, some, arith,
  ℕ_discrete, if◌then◌else◌, ne→==, update, update_self, update_ne,
}
use fox_os_kernel.Strings.{strcpy, memcpy}

-- The `n` bytes from `src` on, and no others, stand from `dest` on.
abbrev pub Copied : ℕ → ℕ → ℕ → (ℕ → ℕ) → (ℕ → ℕ) → Type 0
Copied dest src n mem m =
    ((j : ℕ) → j < n → m (dest + j) ≡ mem (src + j))
    × ((a : ℕ) → (a < dest) ⊎ (dest + n ≤ a) → m a ≡ mem a)

abbrev pub Disjoint : ℕ → ℕ → ℕ → Type 0
Disjoint dest src n = (dest + n ≤ src) ⊎ (src + n ≤ dest)

apart : (dest src n j : ℕ) → Disjoint dest src n → 0 < j → j < n → dest ≢ src + j
apart dest src n j (inl d) o lt q = omega arith
apart dest src n j (inr d) o lt q = omega arith

apart_rest : (dest src n : ℕ) → Disjoint dest src (suc n) → Disjoint (dest + 1) (src + 1) n
apart_rest dest src n (inl d) = inl (omega arith)
apart_rest dest src n (inr d) = inr (omega arith)

apart_less : (dest src n k : ℕ) → k ≤ n → Disjoint dest src n → Disjoint dest src k
apart_less dest src n k l (inl d) = inl (omega arith)
apart_less dest src n k l (inr d) = inr (omega arith)

Copied-more :
    (dest src n : ℕ) (mem m : ℕ → ℕ)
    → Disjoint dest src (suc n)
    → Copied (dest + 1) (src + 1) n (update mem dest (mem src)) m
    → Copied dest src (suc n) mem m
Copied-more dest src n mem m d c = (
  λ j lt. elim (ℕ_discrete j 0) [
    | yes p ↦
        ap m (omega arith)
        ∙ c.1 dest (inl (omega arith))
        ∙ update_self mem dest (mem src)
        ∙ ap mem (omega arith)
    | no p ↦
        ap m (omega arith)
        ∙ c.0 (j - 1) (omega arith)
        ∙ update_ne mem dest (src + 1 + (j - 1)) (mem src)
            (λ q. apart dest src (suc n) j d (omega arith) lt (omega arith))
        ∙ ap mem (omega arith)
  ],
  λ a h.
      c.1 a (elim h [ inl l ↦ inl (omega arith) | inr r ↦ inr (omega arith) ])
      ∙ update_ne mem dest a (mem src) (λ q. elim h [ inl l ↦ omega arith | inr r ↦ omega arith ]),
)

-- Ranges of `n` bytes that do not overlap: `memcpy` copies the bytes and changes no other byte.
pub memcpy-Copied :
    (dest src n : ℕ) (mem : ℕ → ℕ)
    → Disjoint dest src n
    → Copied dest src n mem (memcpy dest src n mem)
unfolding memcpy
memcpy-Copied dest src zero mem d = (λ j lt. absurd (omega arith), λ a h. refl)
memcpy-Copied dest src (suc n) mem d =
    Copied-more dest src n mem (memcpy (dest + 1) (src + 1) n (update mem dest (mem src))) d
      (memcpy-Copied (dest + 1) (src + 1) n (update mem dest (mem src)) (apart_rest dest src n d))

-- A string of `n + 1` characters, a destination that does not overlap it and its end, and more
-- rounds than `n`: `strcpy` returns, it copies the characters and changes no other byte, so the
-- byte behind the copy is not the 0 that ends the string but what it was.
pub strcpy-Copied :
    (fuel dest src n : ℕ) (mem : ℕ → ℕ)
    → n < fuel
    → Disjoint dest src (suc (suc n))
    → ((j : ℕ) → j < suc n → mem (src + j) ≢ 0)
    → mem (src + suc n) ≡ 0
    → (m : ℕ → ℕ) × (strcpy fuel dest src mem ≡ some m) × Copied dest src (suc n) mem m
unfolding strcpy
strcpy-Copied zero dest src n mem f d h e = absurd (omega arith)
strcpy-Copied (suc fuel) dest src zero mem f d h e = (
  update mem dest (mem src),
  rw
      (
        update_ne mem dest (src + 1) (mem src)
            (λ q. apart dest src 2 1 d (omega arith) (omega arith) q),
        e,
      )
      refl,
  Copied-more dest src 0 mem (update mem dest (mem src)) (apart_less dest src 2 1 (omega arith) d)
      (λ j lt. absurd (omega arith), λ a h. refl),
)
strcpy-Copied (suc fuel) dest src (suc n) mem f d h e =
    let mem1 = update mem dest (mem src) in
    let keep : (k : ℕ) (j : ℕ)
        → k ≡ src + j
        → 0 < j
        → j < suc (suc (suc n))
        → mem1 k ≡ mem (src + j) =
      λ k j p o lt.
        ap mem1 p
        ∙ update_ne mem dest (src + j) (mem src) (apart dest src (suc (suc (suc n))) j d o lt) in
    let r =
      strcpy-Copied fuel (dest + 1) (src + 1) n mem1 (omega arith)
        (apart_rest dest src (suc (suc n)) d)
        (λ j lt q.
          h (suc j) (omega arith)
            (sym (keep (src + 1 + j) (suc j) (omega arith) (omega arith) (omega arith)) ∙ q))
        (keep (src + 1 + suc n) (suc (suc n)) (omega arith) (omega arith) (omega arith) ∙ e) in
    let goes_on =
      ne→== (mem1 (src + 1)) 0
        (λ q. h 1 (omega arith) (sym (keep (src + 1) 1 refl (omega arith) (omega arith)) ∙ q)) in
    (
      r.0,
      ap (λ b. if b then some mem1 else strcpy fuel (dest + 1) (src + 1) mem1) goes_on ∙ r.1,
      Copied-more dest src (suc n) mem r.0
          (apart_less dest src (suc (suc (suc n))) (suc (suc n)) (omega arith) d) r.2,
    )
