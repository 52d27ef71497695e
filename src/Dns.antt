-- ===== src/Dns.antt =====
-- src/net/dns.cpp: the names and messages of the DNS client; its requests and its wait are in Dns/Client.
pub mod Name
pub mod Labels
pub mod Client
use fox_os_kernel.Prelude.{
  ℕ, ◌+◌, ◌%◌, not, Option, none, some, List, [], ◌∷◌, ◌==◌, if◌then◌else◌, length, update,
}
use fox_os_kernel.Net.{word16, word32, bswap16}
use fox_os_kernel.Strings.{strlen}

-- The loop of `resolv_domain_to_hostname` over the characters that are left and the 0 behind them.
unfoldable pub encode_from : List ℕ → ℕ → ℕ → ℕ → (ℕ → ℕ) → ℕ → ℕ
encode_from [] lbl dst_pos curr_len mem = update (update mem lbl curr_len) (dst_pos + 1) 0
encode_from (c ∷ src) lbl dst_pos curr_len mem =
    let next_label = encode_from src dst_pos (dst_pos + 1) 0 (update mem lbl curr_len) in
    let next_char =
      encode_from src lbl (dst_pos + 1) ((curr_len + 1) % 256) (update mem dst_pos c) in
    if c == b'.' then next_label else next_char

unfoldable pub resolv_domain_to_hostname : ℕ → List ℕ → (ℕ → ℕ) → ℕ → ℕ
unfolding encode_from
resolv_domain_to_hostname dst src mem = encode_from src dst (dst + 1) 0 mem

-- A result: an address and the bytes of the name, from its pointer on.
pub record DnsResult : Type 0 where
  pub ip : ℕ
  pub name : ℕ → ℕ

-- The tests of `onUdpMessage`, given the length of the name: the header is 12 bytes, the question 4, the
-- resource 10, and a name that is a pointer 2.
unfoldable pub answer_of : (ℕ → ℕ) → ℕ → Option DnsResult
answer_of message len =
    let question = 12 + len + 1 in
    let resource = question + 4 + 2 in
    if not (word16 message 0 == 0xf00f)
    then none
    else if not (word16 message question == bswap16 1)
    then none
    else if not (word16 message (question + 2) == bswap16 1)
    then none
    else if not (word16 message resource == bswap16 1)
    then none
    else if not (word16 message (resource + 2) == bswap16 1)
    then none
    else some (record { ip = word32 message (resource + 10); name = λ i. message (12 + i) })

-- The result that is added, if there is one; `none` outside is a name without an end within the fuel.
unfoldable pub on_udp_message : ℕ → (ℕ → ℕ) → Option (Option DnsResult)
unfolding answer_of
on_udp_message fuel message = elim (strlen fuel (λ i. message (12 + i))) [
  | none ↦ none
  | some len ↦ some (answer_of message len)
]
