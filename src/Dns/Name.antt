-- ===== src/Dns/Name.antt =====
-- src/net/dns.cpp: the labels of a domain name as `resolv_domain_to_hostname` leaves them in memory.
use fox_os_kernel.Prelude.{
  ℕ, zero, suc, ◌+◌, ◌%◌, ◌≤◌, ◌<◌, ◌≡◌, refl, sym, ap, ap₂, ◌∙◌, ◌≢◌, List, [], ◌∷◌, ◌++◌,
  append-nil, arith, if◌then◌else◌, ne→==, length, update, update_self, update_ne,
}
use fox_os_kernel.Net.Bytes.{store_below, store_above}
use fox_os_kernel.Net.{store_bytes, read_bytes}
use fox_os_kernel.Dns.{encode_from}

-- The labels with a `.` between two of them.
abbrev pub domain : List ℕ → List (List ℕ) → List ℕ
domain l [] = l
domain l (k ∷ labels) = l ++ (b'.' ∷ domain k labels)

abbrev pub IsLabel : List ℕ → Type 0
IsLabel [] = Unit
IsLabel (c ∷ s) = (c ≢ b'.') × IsLabel s

-- The labels from `a` on, each behind its length, then a byte that is as it was in `old`, and a 0.
abbrev pub Labels : (ℕ → ℕ) → (ℕ → ℕ) → ℕ → List (List ℕ) → Type 0
Labels old m a [] = (m a ≡ old a) × (m (a + 1) ≡ 0)
Labels old m a (l ∷ labels) =
    (m a ≡ length l)
    × (read_bytes m (a + 1) (length l) ≡ l)
    × Labels old m (a + 1 + length l) labels

pub read_same :
    (p q : ℕ → ℕ) (a n : ℕ)
    → ((x : ℕ) → a ≤ x → x < a + n → q x ≡ p x)
    → read_bytes q a n ≡ read_bytes p a n
unfolding read_bytes
read_same p q a zero h = refl
read_same p q a (suc n) h =
    ap₂ (λ b l. b ∷ l) (h a (omega arith) (omega arith))
      (read_same p q (a + 1) n (λ x lo hi. h x (omega arith) (omega arith)))

read_stored : (l : List ℕ) (a : ℕ) (mem : ℕ → ℕ) → read_bytes (store_bytes l a mem) a (length l) ≡ l
unfolding read_bytes store_bytes
read_stored [] a mem = refl
read_stored (c ∷ l) a mem =
    ap₂ (λ b k. b ∷ k)
      (store_below l (a + 1) a (update mem a c) (omega arith) ∙ update_self mem a c)
      (read_stored l (a + 1) (update mem a c))

-- A label is copied, and counted.
encode_label :
    (l src : List ℕ) (lbl p n : ℕ) (mem : ℕ → ℕ)
    → IsLabel l
    → n + length l < 256
    → encode_from (l ++ src) lbl p n mem
      ≡ encode_from src lbl (p + length l) (n + length l) (store_bytes l p mem)
unfolding encode_from store_bytes
encode_label [] src lbl p n mem h b =
    ap₂ (λ q k. encode_from src lbl q k mem) (omega arith) (omega arith)
encode_label (c ∷ l) src lbl p n mem h b =
    let m = update mem p c in
    ap
      (λ t.
        if t
        then encode_from (l ++ src) p (p + 1) 0 (update mem lbl n)
        else encode_from (l ++ src) lbl (p + 1) ((n + 1) % 256) m)
      (ne→== c b'.' h.0)
    ∙ ap (λ k. encode_from (l ++ src) lbl (p + 1) k m) (omega arith)
    ∙ encode_label l src lbl (p + 1) (n + 1) m h.1 (omega arith)
    ∙ ap₂ (λ q k. encode_from src lbl q k (store_bytes l (p + 1) m)) (omega arith) (omega arith)

abbrev pub AllLabels : List (List ℕ) → Type 0
AllLabels [] = Unit
AllLabels (l ∷ labels) = (IsLabel l × (length l < 256)) × AllLabels labels

-- The memory with one label, behind its length.
pub labelled : List ℕ → ℕ → (ℕ → ℕ) → ℕ → ℕ
labelled l lbl mem = update (store_bytes l (lbl + 1) mem) lbl (length l)

pub labelled_read :
    (l : List ℕ) (lbl : ℕ) (mem : ℕ → ℕ) → read_bytes (labelled l lbl mem) (lbl + 1) (length l) ≡ l
unfolding labelled
labelled_read l lbl mem =
    read_same (store_bytes l (lbl + 1) mem) (labelled l lbl mem) (lbl + 1) (length l)
      (λ x lo hi. update_ne (store_bytes l (lbl + 1) mem) lbl x (length l) (λ e. omega arith))
    ∙ read_stored l (lbl + 1) mem

pub labelled_length : (l : List ℕ) (lbl : ℕ) (mem : ℕ → ℕ) → labelled l lbl mem lbl ≡ length l
unfolding labelled
labelled_length l lbl mem = update_self (store_bytes l (lbl + 1) mem) lbl (length l)

pub labelled_above :
    (l : List ℕ) (lbl x : ℕ) (mem : ℕ → ℕ) → lbl + 1 + length l ≤ x → labelled l lbl mem x ≡ mem x
unfolding labelled
labelled_above l lbl x mem h =
    update_ne (store_bytes l (lbl + 1) mem) lbl x (length l) (λ e. omega arith)
    ∙ store_above l (lbl + 1) x mem h

pub labelled_below : (l : List ℕ) (lbl x : ℕ) (mem : ℕ → ℕ) → x < lbl → labelled l lbl mem x ≡ mem x
unfolding labelled
labelled_below l lbl x mem h =
    update_ne (store_bytes l (lbl + 1) mem) lbl x (length l) (λ e. omega arith)
    ∙ store_below l (lbl + 1) x mem (omega arith)

-- Bytes below do not matter for the byte that is left as it was.
pub Labels-old :
    (old new m : ℕ → ℕ) (a : ℕ) (labels : List (List ℕ))
    → ((x : ℕ) → a ≤ x → old x ≡ new x)
    → Labels old m a labels
    → Labels new m a labels
Labels-old old new m a [] h l = (l.0 ∙ h a (omega arith), l.1)
Labels-old old new m a (k ∷ labels) h l =
    (l.0, l.1, Labels-old old new m (a + 1 + length k) labels (λ x lo. h x (omega arith)) l.2)

pub encode_last :
    (l : List ℕ) (lbl : ℕ) (mem : ℕ → ℕ)
    → IsLabel l
    → length l < 256
    → encode_from l lbl (lbl + 1) 0 mem ≡ update (labelled l lbl mem) (lbl + 1 + length l + 1) 0
unfolding encode_from labelled
encode_last l lbl mem h b =
    ap (λ s. encode_from s lbl (lbl + 1) 0 mem) (sym (append-nil l))
    ∙ encode_label l [] lbl (lbl + 1) 0 mem h (omega arith)
    ∙ ap (λ k. update (update (store_bytes l (lbl + 1) mem) lbl k) (lbl + 1 + length l + 1) 0)
        (omega arith)

pub encode_more :
    (l src : List ℕ) (lbl : ℕ) (mem : ℕ → ℕ)
    → IsLabel l
    → length l < 256
    → encode_from (l ++ (b'.' ∷ src)) lbl (lbl + 1) 0 mem
      ≡ encode_from src (lbl + 1 + length l) (lbl + 1 + length l + 1) 0 (labelled l lbl mem)
unfolding encode_from labelled
encode_more l src lbl mem h b =
    encode_label l (b'.' ∷ src) lbl (lbl + 1) 0 mem h (omega arith)
    ∙ ap
        (λ k.
          encode_from src (lbl + 1 + length l) (lbl + 1 + length l + 1) 0
            (update (store_bytes l (lbl + 1) mem) lbl k))
        (omega arith)
