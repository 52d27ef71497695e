-- ===== src/Dns/Labels.antt =====
-- src/net/dns.cpp: a domain name is encoded label by label.
use fox_os_kernel.Prelude.{
  ℕ, ◌+◌, ◌<◌, ◌≡◌, sym, ◌∙◌, subst, List, [], ◌∷◌, arith, length, update, update_self, update_ne,
}
use fox_os_kernel.Dns.{encode_from, resolv_domain_to_hostname}
use fox_os_kernel.Dns.Name.{
  domain, AllLabels, Labels, labelled, labelled_read, labelled_length, labelled_above,
  labelled_below, Labels-old, encode_last, encode_more, read_same,
}

encode-Labels :
    (l : List ℕ) (labels : List (List ℕ)) (lbl : ℕ) (mem : ℕ → ℕ)
    → AllLabels (l ∷ labels)
    → let m = encode_from (domain l labels) lbl (lbl + 1) 0 mem in
      Labels mem m lbl (l ∷ labels) × ((x : ℕ) → x < lbl → m x ≡ mem x)
encode-Labels l [] lbl mem h =
    let m0 = labelled l lbl mem in
    let last = lbl + 1 + length l + 1 in
    let Encoded : (ℕ → ℕ) → Type 0 =
      λ m. Labels mem m lbl (l ∷ []) × ((x : ℕ) → x < lbl → m x ≡ mem x) in
    subst Encoded (sym (encode_last l lbl mem h.0.0 h.0.1)) (
      (
        update_ne m0 last lbl 0 (λ e. omega arith) ∙ labelled_length l lbl mem,
        read_same m0 (update m0 last 0) (lbl + 1) (length l)
              (λ x lo hi. update_ne m0 last x 0 (λ e. omega arith))
            ∙ labelled_read l lbl mem,
        (
          update_ne m0 last (lbl + 1 + length l) 0 (λ e. omega arith)
              ∙ labelled_above l lbl (lbl + 1 + length l) mem (omega arith),
          update_self m0 last 0,
        ),
      ),
      λ x lt. update_ne m0 last x 0 (λ e. omega arith) ∙ labelled_below l lbl x mem lt,
    )
encode-Labels l (k ∷ labels) lbl mem h =
    let m0 = labelled l lbl mem in
    let next = lbl + 1 + length l in
    let ih = encode-Labels k labels next m0 h.1 in
    let m = encode_from (domain k labels) next (next + 1) 0 m0 in
    let Encoded : (ℕ → ℕ) → Type 0 =
      λ m. Labels mem m lbl (l ∷ k ∷ labels) × ((x : ℕ) → x < lbl → m x ≡ mem x) in
    subst Encoded (sym (encode_more l (domain k labels) lbl mem h.0.0 h.0.1)) (
      (
        ih.1 lbl (omega arith) ∙ labelled_length l lbl mem,
        read_same m0 m (lbl + 1) (length l) (λ x lo hi. ih.1 x (omega arith))
            ∙ labelled_read l lbl mem,
        Labels-old m0 mem m next (k ∷ labels) (λ x lo. labelled_above l lbl x mem lo) ih.0,
      ),
      λ x lt. ih.1 x (omega arith) ∙ labelled_below l lbl x mem lt,
    )

-- A domain name of one label or more, each of fewer than 256 characters and without a `.`:
-- `resolv_domain_to_hostname` leaves each label behind its length, in their order, and writes no byte in
-- front of them. The byte behind the last label, where the empty label of the root belongs, is not
-- written; a 0 follows it.
pub resolv_domain_to_hostname_lem :
    (dst : ℕ) (l : List ℕ) (labels : List (List ℕ)) (mem : ℕ → ℕ)
    → AllLabels (l ∷ labels)
    → let m = resolv_domain_to_hostname dst (domain l labels) mem in
      Labels mem m dst (l ∷ labels) × ((x : ℕ) → x < dst → m x ≡ mem x)
unfolding resolv_domain_to_hostname
resolv_domain_to_hostname_lem dst l labels mem h = encode-Labels l labels dst mem h
