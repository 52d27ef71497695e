-- ===== src/Decimal/Written.antt =====
-- src/cstr.cpp: the digits that `to_string` writes spell the number.
use fox_os_kernel.Prelude.{
  ℕ, zero, suc, ◌+◌, ◌-◌, ◌*◌, ◌/◌, ◌%◌, ◌^◌, ◌≤◌, ◌<◌, ◌≡◌, refl, sym, ap, ◌∙◌, ◌≢◌, some, arith,
  dec_lt, ℕ_discrete, if◌then◌else◌, lt→ltb, le→ltb, update, update_self, update_ne,
}
use native.Mathlib.Nat.{pow-suc}
use fox_os_kernel.Decimal.{count_size, write_digits, then_write, to_string}

-- The number that `n` digits from `a` on spell behind `acc`.
abbrev pub spelled : (ℕ → ℕ) → ℕ → ℕ → ℕ → ℕ
spelled m a zero acc = acc
spelled m a (suc n) acc = spelled m (a + 1) n (acc * 10 + (m a - b'0'))

spelled_last :
    (m : ℕ → ℕ) (a n acc : ℕ)
    → spelled m a (suc n) acc ≡ spelled m a n acc * 10 + (m (a + n) - b'0')
spelled_last m a zero acc = ap (λ b. acc * 10 + (m b - b'0')) (omega arith)
spelled_last m a (suc n) acc =
    spelled_last m (a + 1) n (acc * 10 + (m a - b'0'))
    ∙ ap (λ b. spelled m (a + 1) n (acc * 10 + (m a - b'0')) * 10 + (m b - b'0')) (omega arith)

-- The number has `n + 1` digits.
abbrev pub HasDigits : ℕ → ℕ → Type 0
HasDigits value zero = value < 10
HasDigits value (suc n) = (10 ≤ value) × HasDigits (value / 10) n

count_size_lem :
    (fuel value size n : ℕ)
    → HasDigits value n
    → n < fuel
    → size + n < 256
    → count_size fuel value size ≡ some (size + n)
unfolding count_size
count_size_lem zero value size n h f b = absurd (omega arith)
count_size_lem (suc fuel) value size zero h f b =
    ap (λ c. if c then count_size fuel (value / 10) ((size + 1) % 256) else some size)
      (le→ltb 0 (value / 10) (omega arith))
    ∙ ap some (omega arith)
count_size_lem (suc fuel) value size (suc n) h f b =
    ap (λ c. if c then count_size fuel (value / 10) ((size + 1) % 256) else some size)
      (lt→ltb 0 (value / 10) (omega (arith, h.0)))
    ∙ ap (count_size fuel (value / 10)) (omega arith)
    ∙ count_size_lem fuel (value / 10) (size + 1) n h.1 (omega arith) (omega arith)
    ∙ ap some (omega arith)

-- What the loop leaves: the first `n + 1` digits spell the value, a 0 stands behind digit `last`, and the
-- bytes from digit `n + 1` on are as they were but for that.
abbrev pub Spells : ℕ → ℕ → ℕ → ℕ → (ℕ → ℕ) → (ℕ → ℕ) → Type 0
Spells out last n value mem m =
    (spelled m out (suc n) 0 ≡ value)
    × ((j : ℕ) → j < suc n → (b'0' ≤ m (out + j)) × (m (out + j) ≤ b'9'))
    × (m (out + last + 1) ≡ 0)
    × ((a : ℕ) → out + n < a → a ≢ out + last + 1 → m a ≡ mem a)

write_digits_lem :
    (fuel out last n index value : ℕ) (mem : ℕ → ℕ)
    → HasDigits value n
    → n < fuel
    → last ≡ n + index
    → last < 255
    → (m : ℕ → ℕ) × (write_digits fuel out last index value mem ≡ some m)
      × Spells out last n value mem m
unfolding write_digits
write_digits_lem zero out last n index value mem h f e b = absurd (omega arith)
write_digits_lem (suc fuel) out last zero index value mem h f e b =
    let digit = value % 10 + b'0' in
    let m0 = update mem (out + last - index) digit in
    let m1 = update m0 (out + last + 1) 0 in
    let rest = write_digits fuel out last ((index + 1) % 256) (value / 10) m0 in
    let here : (a : ℕ) → a ≡ out → m1 a ≡ digit = λ a q.
      update_ne m0 (out + last + 1) a 0 (λ r. omega arith)
      ∙ ap m0 (the_place a out last index q e)
      ∙ update_self mem (out + last - index) digit in
    (
      m1,
      ap (λ c. if c then rest else some m1) (le→ltb 0 (value / 10) (omega arith)),
      (
        omega (arith, here out refl),
        λ j lt. omega (arith, here (out + j) (omega arith)),
        update_self m0 (out + last + 1) 0,
        λ a lt ne.
            update_ne m0 (out + last + 1) a 0 (λ q. ne (sym q))
            ∙ update_ne mem (out + last - index) a digit (λ q. omega arith),
      ),
    )
  where
    the_place : (a out last index : ℕ) → a ≡ out → last ≡ 0 + index → a ≡ out + last - index
    the_place a out last index q e = omega arith
write_digits_lem (suc fuel) out last (suc n) index value mem h f e b =
    let digit = value % 10 + b'0' in
    let m0 = update mem (out + last - index) digit in
    let ih =
      write_digits_lem fuel out last n (index + 1) (value / 10) m0 h.1 (omega arith) (omega arith)
        b in
    let m = ih.0 in
    let here : (a : ℕ) → a ≡ out + suc n → m a ≡ digit = λ a q.
      ih.2.3 a (omega arith) (λ r. omega arith)
      ∙ ap m0 (the_place a out last index n q e)
      ∙ update_self mem (out + last - index) digit in
    (
      m,
      ap
            (λ c.
              if c
              then write_digits fuel out last ((index + 1) % 256) (value / 10) m0
              else some (update m0 (out + last + 1) 0))
            (lt→ltb 0 (value / 10) (omega (arith, h.0)))
          ∙ ap (λ i. write_digits fuel out last i (value / 10) m0) (omega arith)
          ∙ ih.1,
      (
        spelled_last m out (suc n) 0 ∙ omega (arith, ih.2.0, here (out + suc n) refl),
        λ j lt. elim (ℕ_discrete j (suc n)) [
          | yes q ↦ omega (arith, here (out + j) (omega arith))
          | no ne ↦ ih.2.1 j (omega arith)
        ],
        ih.2.2,
        λ a lt ne.
            ih.2.3 a (omega arith) ne
            ∙ update_ne mem (out + last - index) a digit (λ q. omega arith),
      ),
    )
  where
    the_place :
        (a out last index n : ℕ) → a ≡ out + suc n → last ≡ suc n + index → a ≡ out + last - index
    the_place a out last index n q e = omega arith

-- A number below 10 ^ (k + 1) has at most `k + 1` digits.
digits_exist : (k value : ℕ) → value < 10 ^ suc k → (n : ℕ) × (n ≤ k) × HasDigits value n
digits_exist zero value lt = (0, omega arith, omega (arith, pow-suc 10 0))
digits_exist (suc k) value lt = elim (dec_lt value 10) [
  | yes small ↦ (0, omega arith, small)
  | no large ↦
      let ih = digits_exist k (value / 10) (omega (arith, pow-suc 10 (suc k))) in
      (suc ih.0, omega (arith, ih.1), (omega (arith, large), ih.2))
]

-- A 64-bit number, where the byte that `to_string` does not initialise is 0, and 20 rounds or more:
-- `to_string` returns, up to 20 bytes from the buffer on are decimal digits that spell the number,
-- and a 0 stands behind them.
pub to_string_lem :
    (fuel out value : ℕ) (mem : ℕ → ℕ)
    → value < 2 ^ 64
    → 20 ≤ fuel
    → (n : ℕ) × (n < 20)
      × ((m : ℕ → ℕ) × (to_string fuel 0 out value mem ≡ some m) × Spells out n n value mem m)
unfolding to_string
to_string_lem fuel out value mem fits enough =
    let (n, le, h) = digits_exist 19 value (omega arith) in
    let run =
      write_digits_lem fuel out n n 0 value mem h (omega arith) (omega arith) (omega arith) in
    (
      n,
      omega arith,
      (
        run.0,
        ap (then_write fuel out value mem)
              (count_size_lem fuel value 0 n h (omega arith) (omega arith) ∙ ap some (omega arith))
            ∙ run.1,
        run.2,
      ),
    )
