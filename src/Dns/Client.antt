-- ===== src/Dns/Client.antt =====
-- src/net/dns.cpp: the requests of the DNS client, the wait for an answer, and what an answer adds. What the
-- interrupts do while the client sleeps is a parameter.
use fox_os_kernel.Prelude.{
  ℕ, zero, suc, ◌+◌, ◌/◌, ◌%◌, ◌≡◌, refl, ap, ◌∙◌, Bool, true, false, Option, none, some, List, [],
  ◌∷◌, ◌++◌, ◌==◌, if◌then◌else◌, update,
}
use fox_os_kernel.Net.{bswap16}
use fox_os_kernel.Slots.{Slots, find}
use fox_os_kernel.Slots
use fox_os_kernel.Strings.{strlen, strcmp, strncmp}
use fox_os_kernel.Dns.{resolv_domain_to_hostname, DnsResult, on_udp_message}

-- `sent` are the messages, each with its size.
pub record DomainNameServiceProvider : Type 0 where
  pub results : Slots DnsResult
  pub wait_for_response : Bool
  pub sent : List (ℕ × (ℕ → ℕ))

abbrev pub put_word16 : ℕ → ℕ → (ℕ → ℕ) → ℕ → ℕ
put_word16 a n mem = update (update mem a (n % 256)) (a + 1) (n / 256 % 256)

-- The header and the question around a name of `len` bytes; `ancount`, `nscount` and `arcount` keep what
-- the buffer held.
abbrev pub dns_message : ℕ → (ℕ → ℕ) → ℕ → ℕ
dns_message len mem =
    let question = 12 + len + 1 in
    put_word16 (question + 2) (bswap16 1) (
      put_word16 question (bswap16 1)
        (put_word16 4 (bswap16 1) (put_word16 2 (bswap16 256) (put_word16 0 0xf00f mem))))

abbrev pub put_message :
    (ℕ → ℕ) → DomainNameServiceProvider → Option ℕ → Option DomainNameServiceProvider
put_message mem p none = none
put_message mem p (some len) =
    some (record p { sent = p.sent ++ ((12 + len + 1 + 4, dns_message len mem) ∷ []) })

-- The buffer of 2048 bytes holds `memory`.
unfoldable pub dns_request :
    ℕ → (ℕ → ℕ) → List ℕ → DomainNameServiceProvider → Option DomainNameServiceProvider
unfolding resolv_domain_to_hostname
dns_request fuel memory name p =
    let mem = resolv_domain_to_hostname 12 name memory in
    put_message mem p (strlen fuel (λ i. mem (12 + i)))

abbrev pub is_zero_result : Option ℕ → Bool
is_zero_result none = false
is_zero_result (some n) = n == 0

-- `qname` has a 0 within its 128 bytes, so 128 rounds are enough.
unfoldable pub is_named : (ℕ → ℕ) → DnsResult → Bool
is_named qname r = is_zero_result (strcmp 128 qname r.name)

-- `strncmp(qname, n->data.name, strlen(qname)) == 0`
unfoldable pub begins_with : (ℕ → ℕ) → DnsResult → Bool
begins_with qname r = elim (strlen 128 qname) [
  | none ↦ false
  | some n ↦ is_zero_result (some (strncmp qname r.name n))
]

abbrev pub ip_of : DomainNameServiceProvider → Option ℕ → ℕ
ip_of p none = 0
ip_of p (some i) = (p.results.nodes i).value.ip

-- `while (true)` with `timeout` rounds: whether the answer came, and the state.
unfoldable pub await_response :
    (ℕ → DomainNameServiceProvider → DomainNameServiceProvider)
    → ℕ
    → DomainNameServiceProvider
    → Bool × DomainNameServiceProvider
await_response sleep zero p = (false, p)
await_response sleep (suc timeout) p =
    let rest = await_response sleep timeout (sleep timeout p) in
    if p.wait_for_response then rest else (true, p)

abbrev pub answered : (ℕ → ℕ) → Bool × DomainNameServiceProvider → ℕ × DomainNameServiceProvider
answered qname (false, p) = (0, p)
answered qname (true, p) = (ip_of p (find (begins_with qname) p.results), p)

abbrev pub await_answer :
    (ℕ → DomainNameServiceProvider → DomainNameServiceProvider)
    → (ℕ → ℕ)
    → Option DomainNameServiceProvider
    → Option (ℕ × DomainNameServiceProvider)
await_answer sleep qname none = none
await_answer sleep qname (some p) = some (answered qname (await_response sleep 100000 p))

abbrev pub ask_or_known :
    (ℕ → DomainNameServiceProvider → DomainNameServiceProvider)
    → (ℕ → ℕ)
    → DomainNameServiceProvider
    → Option DomainNameServiceProvider
    → Option ℕ
    → Option (ℕ × DomainNameServiceProvider)
ask_or_known sleep qname p asked (some i) = some (ip_of p (some i), p)
ask_or_known sleep qname p asked none = await_answer sleep qname asked

-- `qname` is cleared, and the encoded name fits in it. The wait flag is set before the request.
unfoldable pub resolve :
    (ℕ → DomainNameServiceProvider → DomainNameServiceProvider)
    → ℕ
    → (ℕ → ℕ)
    → List ℕ
    → DomainNameServiceProvider
    → Option (ℕ × DomainNameServiceProvider)
unfolding resolv_domain_to_hostname dns_request is_named begins_with await_response
resolve sleep fuel memory name p =
    let qname = resolv_domain_to_hostname 0 name (λ _. 0) in
    ask_or_known sleep qname p
      (dns_request fuel memory name (record p { wait_for_response = true }))
      (find (is_named qname) p.results)

abbrev pub added :
    DomainNameServiceProvider → Option (ℕ × Slots DnsResult) → Option DomainNameServiceProvider
added p none = none
added p (some r) = some (record p { results = r.1; wait_for_response = false })

-- The end of `onUdpMessage`: the result is added, and the wait is over. `node_size` is the size of a node.
unfoldable pub receive :
    ℕ → ℕ → (ℕ → ℕ) → DomainNameServiceProvider → Option DomainNameServiceProvider
receive node_size fuel message p = elim (on_udp_message fuel message) [
  | none ↦ none
  | some none ↦ some p
  | some (some r) ↦ added p (Slots.add node_size fuel r p.results)
]

await_silent :
    (sleep : ℕ → DomainNameServiceProvider → DomainNameServiceProvider) (timeout : ℕ)
    (p : DomainNameServiceProvider)
    → ((n : ℕ) (q : DomainNameServiceProvider)
        → (sleep n q).wait_for_response ≡ q.wait_for_response)
    → p.wait_for_response ≡ true
    → (await_response sleep timeout p).0 ≡ false
unfolding await_response
await_silent sleep zero p quiet waits = refl
await_silent sleep (suc timeout) p quiet waits =
    let rest = await_response sleep timeout (sleep timeout p) in
    ap (λ b. (if b then rest else (true, p)).0) waits
    ∙ await_silent sleep timeout (sleep timeout p) quiet (quiet timeout p ∙ waits)

answered_none :
    (qname : ℕ → ℕ) (r : Bool × DomainNameServiceProvider) → r.0 ≡ false → (answered qname r).0 ≡ 0
answered_none qname (false, p) e = refl
answered_none qname (true, p) e = cc e

-- A name that no result has, whose encoding ends within the fuel, while no interrupt ends the wait: `resolve`
-- returns, with 0, after its 100000 rounds.
pub resolve-silent :
    (sleep : ℕ → DomainNameServiceProvider → DomainNameServiceProvider) (fuel len : ℕ)
    (memory : ℕ → ℕ) (name : List ℕ) (p : DomainNameServiceProvider)
    → find (is_named (resolv_domain_to_hostname 0 name (λ _. 0))) p.results ≡ none
    → strlen fuel (λ i. resolv_domain_to_hostname 12 name memory (12 + i)) ≡ some len
    → ((n : ℕ) (q : DomainNameServiceProvider)
        → (sleep n q).wait_for_response ≡ q.wait_for_response)
    → (r : ℕ × DomainNameServiceProvider) × (resolve sleep fuel memory name p ≡ some r) × (r.0 ≡ 0)
unfolding resolve dns_request
resolve-silent sleep fuel len memory name p absent ends quiet =
    let qname = resolv_domain_to_hostname 0 name (λ _. 0) in
    let mem = resolv_domain_to_hostname 12 name memory in
    let waiting : DomainNameServiceProvider = record p { wait_for_response = true } in
    let asked : DomainNameServiceProvider = record waiting {
      sent = p.sent ++ ((12 + len + 1 + 4, dns_message len mem) ∷ []);
    } in
    (
      answered qname (await_response sleep 100000 asked),
      ap (ask_or_known sleep qname p (put_message mem waiting (strlen fuel (λ i. mem (12 + i)))))
            absent
          ∙ ap (λ o. await_answer sleep qname (put_message mem waiting o)) ends,
      answered_none qname (await_response sleep 100000 asked)
          (await_silent sleep 100000 asked quiet refl),
    )
