-- ===== src/Stdin.antt =====
-- src/interrupts/syscalls/read.cpp: the buffer that a program reads the standard input into, which the
-- keyboard fills. The read of a file descriptor is in Descriptors/Calls.
use fox_os_kernel.Prelude.{
  ℕ, ◌+◌, ◌-◌, ◌%◌, ◌^◌, ◌<◌, ◌≡◌, refl, ap, ◌∙◌, Bool, true, false, Option, none, some, List, [],
  ◌∷◌, ◌++◌, arith, ◌==◌, if◌then◌else◌, ne→==, length, update,
}
use fox_os_kernel.Net.{store_bytes}

-- `is_done` and `buffer` are addresses.
pub record ReadBuffer : Type 0 where
  pub is_done : ℕ
  pub buffer : ℕ
  pub is_reading : Bool
  pub count : ℕ

-- The state and the memory after a character that is read.
abbrev pub stored : ℕ → ReadBuffer → (ℕ → ℕ) → ReadBuffer × (ℕ → ℕ)
stored c r mem =
    let left = (r.count + 2 ^ 32 - 1) % 2 ^ 32 in
    if left == 0
    then (
      record r { buffer = r.buffer + 1; count = left; is_reading = false },
      update (update mem r.buffer c) r.is_done 1,
    )
    else (record r { buffer = r.buffer + 1; count = left }, update mem r.buffer c)

unfoldable pub add_char : ℕ → ReadBuffer × (ℕ → ℕ) → ReadBuffer × (ℕ → ℕ)
add_char c s = if s.0.is_reading then stored c s.0 s.1 else s

-- `case 0` of `sys_read`: `none` is the failed `assert`, which sets the error number.
unfoldable pub sys_read_stdin : ℕ → ℕ → ℕ → ReadBuffer → Option ReadBuffer
sys_read_stdin buffer count is_done r =
    if r.is_reading
    then none
    else some
        (record { is_done = is_done; buffer = buffer; is_reading = true; count = count % 2 ^ 32 })

-- The characters that the keyboard gives, one after the other.
unfoldable pub add_all : List ℕ → ReadBuffer × (ℕ → ℕ) → ReadBuffer × (ℕ → ℕ)
add_all [] s = s
add_all (c ∷ cs) s = add_all cs (add_char c s)

add_idle : (cs : List ℕ) (s : ReadBuffer × (ℕ → ℕ)) → s.0.is_reading ≡ false → add_all cs s ≡ s
unfolding add_all add_char
add_idle [] s idle = refl
add_idle (c ∷ cs) s idle =
    ap (λ b. add_all cs (if b then stored c s.0 s.1 else s)) idle ∙ add_idle cs s idle

abbrev buffer_at : ℕ → ℕ → ℕ → ReadBuffer
buffer_at is_done buffer count = record {
  is_done = is_done;
  buffer = buffer;
  is_reading = true;
  count = count;
}

-- The last character of a read.
add_last :
    (is_done buffer c : ℕ) (mem : ℕ → ℕ)
    → add_char c (buffer_at is_done buffer 1, mem) ≡ (
      record { is_done = is_done; buffer = buffer + 1; is_reading = false; count = 0 },
      update (update mem buffer c) is_done 1,
    )
unfolding add_char
add_last is_done buffer c mem = refl

-- A character that is not the last one.
add_next :
    (is_done buffer count c : ℕ) (mem : ℕ → ℕ)
    → count + 2 < 2 ^ 32
    → add_char c (buffer_at is_done buffer (count + 2), mem)
      ≡ (buffer_at is_done (buffer + 1) (count + 1), update mem buffer c)
unfolding add_char
add_next is_done buffer count c mem fits =
    let left = (count + 2 + 2 ^ 32 - 1) % 2 ^ 32 in
    let one_less : left ≡ count + 1 = omega arith in
    ap
      (λ b.
        if b
        then (
          record { is_done = is_done; buffer = buffer + 1; is_reading = false; count = left },
          update (update mem buffer c) is_done 1,
        )
        else (buffer_at is_done (buffer + 1) left, update mem buffer c))
      (ne→== left 0 (λ e. omega arith))
    ∙ ap (λ n. (buffer_at is_done (buffer + 1) n, update mem buffer c)) one_less

add_all_lem :
    (is_done : ℕ) (cs : List ℕ) (last : ℕ) (more : List ℕ) (buffer : ℕ) (mem : ℕ → ℕ)
    → length cs + 1 < 2 ^ 32
    → add_all (cs ++ (last ∷ more)) (buffer_at is_done buffer (length cs + 1), mem) ≡ (
      record {
        is_done = is_done;
        buffer = buffer + (length cs + 1);
        is_reading = false;
        count = 0;
      },
      update (store_bytes (cs ++ (last ∷ [])) buffer mem) is_done 1,
    )
unfolding add_all store_bytes
add_all_lem is_done [] last more buffer mem fits =
    ap (add_all more) (add_last is_done buffer last mem) ∙ add_idle more _ refl
add_all_lem is_done (c ∷ cs) last more buffer mem fits =
    ap (add_all (cs ++ (last ∷ more))) (
      ap (λ n. add_char c (buffer_at is_done buffer n, mem)) (omega arith)
      ∙ add_next is_done buffer (length cs) c mem (omega arith))
    ∙ add_all_lem is_done cs last more (buffer + 1) (update mem buffer c) (omega arith)
    ∙ ap
        (λ n. (
          record { is_done = is_done; buffer = n; is_reading = false; count = 0 },
          update (store_bytes (cs ++ (last ∷ [])) (buffer + 1) (update mem buffer c)) is_done 1,
        ))
        (omega arith)

-- No read that is under way, and a read of `length cs + 1` characters, fewer than 2 ^ 32: once the
-- characters `cs` and `last` have come they stand in the program's buffer in their order, then the
-- flag is set to 1 and the read is over, and the characters `more` that follow change nothing.
pub sys_read-add_all :
    (r : ReadBuffer) (buffer is_done last : ℕ) (cs more : List ℕ) (mem : ℕ → ℕ)
    → r.is_reading ≡ false
    → length cs + 1 < 2 ^ 32
    → (q : ReadBuffer) × (sys_read_stdin buffer (length cs + 1) is_done r ≡ some q)
      × ((add_all (cs ++ (last ∷ more)) (q, mem)).1
          ≡ update (store_bytes (cs ++ (last ∷ [])) buffer mem) is_done 1)
      × ((add_all (cs ++ (last ∷ more)) (q, mem)).0.is_reading ≡ false)
unfolding sys_read_stdin
sys_read-add_all r buffer is_done last cs more mem idle fits =
    let run = add_all_lem is_done cs last more buffer mem fits in
    (
      buffer_at is_done buffer (length cs + 1),
      ap (λ b. if b then none else some (buffer_at is_done buffer ((length cs + 1) % 2 ^ 32))) idle
          ∙ ap (λ n. some (buffer_at is_done buffer n)) (omega arith),
      ap (λ s. s.1) run,
      ap (λ s. s.0.is_reading) run,
    )
