-- ===== src/Examples/Printing.antt =====
-- Numbers and text printed, and a command line read, at concrete inputs.
use fox_os_kernel.Prelude.{
  ℕ, ◌+◌, ◌-◌, ◌<◌, max, ◌≡◌, true, none, some, List, [], ◌∷◌, map, arith, length,
}
use fox_os_kernel.NodeList.{NodeList}
use fox_os_kernel.Decimal.{to_string}
use fox_os_kernel.Decimal.Written.{Spells, to_string_lem}
use fox_os_kernel.Decimal.Hex.{hex_digit, byte_at, nibble, hex_string, hex_string_lem}
use fox_os_kernel.Format.Number.{layout, number_printf}
use fox_os_kernel.Format.Digits.{spelled, number_printf_lem}
use fox_os_kernel.Format.Printf.{vsprintf}
use fox_os_kernel.Format.Escape.{escape, vsprintf-escape}
use fox_os_kernel.CmdLine.{parse}
use fox_os_kernel.CmdLine.RoundTrip.{spell_all, applied, parse-spell_all}

to_string_example :
    (n : ℕ) × (n < 20)
    × ((m : ℕ → ℕ) × (to_string 20 0 500 1234 (λ a. 0) ≡ some m) × Spells 500 n n 1234 (λ a. 0) m)
to_string_example = to_string_lem 20 500 1234 (λ a. 0) (omega arith) (omega arith)

hex_string_example :
    ((j : ℕ)
      → j < 6
      → hex_string 2 100 0xBEEF (λ i. 0) (λ a. 0) (103 - j)
        ≡ hex_digit (nibble (byte_at 2 0xBEEF (λ i. 0)) j))
    × (hex_string 2 100 0xBEEF (λ i. 0) (λ a. 0) 104 ≡ 0)
hex_string_example = hex_string_lem 2 100 0xBEEF (λ i. 0) (λ a. 0) (omega arith) (omega arith)

-- `%08d` of 1234
number_printf_example :
    (digits : List ℕ) × (number_printf 1234 10 8 0 1 ≡ some (layout 1 8 0 [] [] digits))
    × (spelled 10 digits 0 ≡ 1234)
    × (length (layout 1 8 0 [] [] digits) ≡ max 8 (0 + 0 + max 0 (length digits)))
number_printf_example = number_printf_lem 1234 10 8 0 1 (omega arith) (omega arith) (omega arith)

-- `100%`
vsprintf_example :
    vsprintf (λ a. []) (escape (b'1' ∷ b'0' ∷ b'0' ∷ b'%' ∷ [])) []
    ≡ some (b'1' ∷ b'0' ∷ b'0' ∷ b'%' ∷ [], [])
vsprintf_example = vsprintf-escape (λ a. []) (b'1' ∷ b'0' ∷ b'0' ∷ b'%' ∷ []) []

abbrev handlers : NodeList
handlers = record {
  node_count = 1;
  nodes = λ i. record { data1 = 70; data2 = 5; data3 = 0; data4 = 0; is_taken = true };
}

abbrev names : ℕ → List ℕ
names p = b'k' ∷ []

-- `k=v x`, with a handler for `k`.
parse_example :
    parse names handlers (spell_all (b'k' ∷ [], some (b'v' ∷ [])) ((b'x' ∷ [], none) ∷ []))
    ≡ map (applied names handlers) ((b'k' ∷ [], some (b'v' ∷ [])) ∷ (b'x' ∷ [], none) ∷ [])
parse_example =
    parse-spell_all names handlers (b'k' ∷ [], some (b'v' ∷ [])) ((b'x' ∷ [], none) ∷ [])
      (
        ((λ e. absurd (omega (arith, e))), tt),
        ((λ e. absurd (omega (arith, e))), tt),
        ((λ e. absurd (omega (arith, e))), tt),
      )
      ((((λ e. absurd (omega (arith, e))), tt), ((λ e. absurd (omega (arith, e))), tt)), tt)
      (omega arith)
