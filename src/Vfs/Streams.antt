-- ===== src/Vfs/Streams.antt =====
-- src/fs/vfs/vfs.cpp: drivers of streams, as hypotheses on their functions, and the inner loop of `copy`.
use fox_os_kernel.Prelude.{
  ℕ, zero, suc, ◌+◌, ◌-◌, ◌^◌, ◌≤◌, ◌<◌, ◌≡◌, refl, sym, ap, ap₂, ◌∙◌, Bool, none, some, List, [],
  ◌∷◌, ◌++◌, append_assoc, arith, dec_lt, ◌==◌, if◌then◌else◌, ==_iff, ne→==, length, add64, sub64,
}
use fox_os_kernel.Vfs.{VfsMount, World, Vfs, on_stream, if_present, answer}
use fox_os_kernel.Vfs.Files.{fread, fwrite}
use fox_os_kernel.Vfs.Moves.{write_out}

abbrev pub segment : (ℕ → ℕ) → ℕ → ℕ → List ℕ
segment cells p zero = []
segment cells p (suc n) = cells p ∷ segment cells (p + 1) n

segment_add :
    (cells : ℕ → ℕ) (p a b : ℕ)
    → segment cells p (a + b) ≡ segment cells p a ++ segment cells (p + a) b
segment_add cells p zero b = ap₂ (segment cells) (omega arith) (omega arith)
segment_add cells p (suc a) b =
    ap (segment cells p) (the_sum a b)
    ∙ ap (λ l. cells p ∷ l)
        (segment_add cells (p + 1) a b
          ∙ ap (λ q. segment cells (p + 1) a ++ segment cells q b) (omega arith))
  where
    the_sum : (a b : ℕ) → suc a + b ≡ suc (a + b)
    the_sum a b = omega arith

pub length-segment : (cells : ℕ → ℕ) (p n : ℕ) → length (segment cells p n) ≡ n
length-segment cells p zero = refl
length-segment cells p (suc n) = ap suc (length-segment cells (p + 1) n)

module _ {D : Type 0} (source sink : World D → List ℕ) (cells : World D → ℕ → ℕ) where
  -- A read gives no more bytes than were asked for, in the buffer, and none only at the end.
  pub record IsSource (src : ℕ) (read : ℕ → ℕ → ℕ → ℕ → World D → ℕ × World D) : Type 0 where
    pub bounded : (ptr size : ℕ) (w : World D) → (read ptr size 1 src w).0 ≤ size
    pub ended :
        (ptr size : ℕ) (w : World D) → 0 < size → (read ptr size 1 src w).0 ≡ 0 → source w ≡ []
    pub taken :
        (ptr size : ℕ) (w : World D)
        → source w
          ≡ segment (cells (read ptr size 1 src w).1) ptr (read ptr size 1 src w).0
            ++ source (read ptr size 1 src w).1
    pub apart : (ptr size : ℕ) (w : World D) → sink (read ptr size 1 src w).1 ≡ sink w

  -- A write takes some of the bytes, and appends them.
  pub record IsSink (dest : ℕ) (write : ℕ → ℕ → ℕ → ℕ → World D → ℕ × World D) : Type 0 where
    pub some_taken : (ptr size : ℕ) (w : World D) → 0 < size → 0 < (write ptr size 1 dest w).0
    pub bounded : (ptr size : ℕ) (w : World D) → (write ptr size 1 dest w).0 ≤ size
    pub appended :
        (ptr size : ℕ) (w : World D)
        → sink (write ptr size 1 dest w).1
          ≡ sink w ++ segment (cells w) ptr (write ptr size 1 dest w).0
    pub kept : (ptr size : ℕ) (w : World D) → cells (write ptr size 1 dest w).1 ≡ cells w
    pub apart : (ptr size : ℕ) (w : World D) → source (write ptr size 1 dest w).1 ≡ source w

  module _ (drivers : ℕ → VfsMount D) (src dest m n : ℕ)
      (read write : ℕ → ℕ → ℕ → ℕ → World D → ℕ × World D) (reads : (drivers m).read ≡ some read)
      (writes : (drivers n).write ≡ some write) (is_source : IsSource src read)
      (is_sink : IsSink dest write) where
    fwrite_lem :
        (ptr size : ℕ) (v : Vfs D)
        → v.streams dest ≡ some n
        → fwrite drivers ptr size 1 dest v ≡ answer v (write ptr size 1 dest v.world)
    unfolding fwrite
    fwrite_lem ptr size v at =
        ap
          (λ t.
            on_stream t
              λ j. if_present (drivers j).write 0 v λ f. answer v (f ptr size 1 dest v.world))
          at
        ∙ ap (λ t. if_present t 0 v λ f. answer v (f ptr size 1 dest v.world)) writes

    pub fread_lem :
        (ptr size : ℕ) (v : Vfs D)
        → v.streams src ≡ some m
        → fread drivers ptr size 1 src v ≡ answer v (read ptr size 1 src v.world)
    unfolding fread
    fread_lem ptr size v at =
        ap
          (λ t.
            on_stream t
              λ j. if_present (drivers j).read 0 v λ f. answer v (f ptr size 1 src v.world))
          at
        ∙ ap (λ t. if_present t 0 v λ f. answer v (f ptr size 1 src v.world)) reads

    write_step :
        (fuel ptr nread : ℕ) (v : Vfs D)
        → v.streams dest ≡ some n
        → let r = write ptr nread 1 dest v.world in
          let v1 : Vfs D = record v { world = r.1 } in
          write_out drivers (suc fuel) ptr nread dest v ≡ (
            if sub64 nread r.0 == 0
            then some v1
            else write_out drivers fuel (add64 ptr r.0) (sub64 nread r.0) dest v1)
    unfolding write_out
    write_step fuel ptr nread v at =
        ap
          (λ o. elim o [
            | none ↦ none
            | some r ↦
                if sub64 nread r.0 == 0
                then some r.1
                else write_out drivers fuel (add64 ptr r.0) (sub64 nread r.0) dest r.1
          ])
          (fwrite_lem ptr nread v at)

    pub write_out_lem :
        (fuel ptr nread : ℕ) (v : Vfs D)
        → v.streams dest ≡ some n
        → 0 < nread
        → nread ≤ fuel
        → ptr + nread < 2 ^ 64
        → (w : Vfs D) × (write_out drivers fuel ptr nread dest v ≡ some w)
          × (sink w.world ≡ sink v.world ++ segment (cells v.world) ptr nread)
          × (source w.world ≡ source v.world)
          × (w.streams ≡ v.streams)
    write_out_lem zero ptr nread v at pos enough fits = absurd (omega arith)
    write_out_lem (suc fuel) ptr nread v at pos enough fits =
        let r = write ptr nread 1 dest v.world in
        let v1 : Vfs D = record v { world = r.1 } in
        let some_go = is_sink.some_taken ptr nread v.world pos in
        let no_more = is_sink.bounded ptr nread v.world in
        let kept = is_sink.kept ptr nread v.world in
        let branch = λ (b : Bool).
          if b then some v1 else write_out drivers fuel (add64 ptr r.0) (sub64 nread r.0) dest v1 in
        elim (dec_lt r.0 nread) [
          | no all ↦ (
            v1,
            write_step fuel ptr nread v at
                ∙ ap branch ((==_iff (sub64 nread r.0) 0).1 (omega (arith, all))),
            is_sink.appended ptr nread v.world
                ∙ ap (λ j. sink v.world ++ segment (cells v.world) ptr j) (omega (arith, all)),
            is_sink.apart ptr nread v.world,
            refl,
          )
          | yes part ↦
              let ih =
                write_out_lem fuel (ptr + r.0) (nread - r.0) v1 at (omega arith) (omega arith)
                  (omega arith) in
              (
                ih.0,
                write_step fuel ptr nread v at
                    ∙ ap branch (ne→== (sub64 nread r.0) 0 (λ e. omega arith))
                    ∙ ap₂ (λ p q. write_out drivers fuel p q dest v1) (omega arith) (omega arith)
                    ∙ ih.1,
                ih.2
                    ∙ ap₂ (λ l c. l ++ segment c (ptr + r.0) (nread - r.0))
                        (is_sink.appended ptr nread v.world) kept
                    ∙ append_assoc (sink v.world) (segment (cells v.world) ptr r.0)
                        (segment (cells v.world) (ptr + r.0) (nread - r.0))
                    ∙ ap (λ l. sink v.world ++ l)
                        (sym (segment_add (cells v.world) ptr r.0 (nread - r.0))
                          ∙ ap (segment (cells v.world) ptr) (omega arith)),
                ih.3 ∙ is_sink.apart ptr nread v.world,
                ih.4,
              )
        ]
