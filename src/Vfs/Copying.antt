-- ===== src/Vfs/Copying.antt =====
-- src/fs/vfs/vfs.cpp: the loops of `copy` move the whole file, in as many reads and writes as the drivers
-- make of it.
use fox_os_kernel.Prelude.{
  ℕ, zero, suc, ◌+◌, ◌^◌, ◌≤◌, ◌<◌, ◌≡◌, refl, sym, ap, ap₂, ◌∙◌, ◌≢◌, Bool, false, Option, none,
  some, List, [], ◌∷◌, ◌++◌, append-nil, append_assoc, arith, ℕ_discrete, ◌==◌, if◌then◌else◌,
  ==_iff, ne→==, length, length-append, update, update_ne,
}
use fox_os_kernel.Vfs.{VfsMount, World, Vfs, on_stream, if_present, eq_text}
use fox_os_kernel.Vfs.Files.{fopen, fclose}
use fox_os_kernel.Vfs.Moves.{write_out, copy_all, close_both, with_streams, copy}
use fox_os_kernel.Vfs.Streams.{segment, length-segment, IsSource, IsSink, fread_lem, write_out_lem}

module _ {D : Type 0} (source sink : World D → List ℕ) (cells : World D → ℕ → ℕ) where
  module _ (drivers : ℕ → VfsMount D) (src dest m n : ℕ)
      (read write : ℕ → ℕ → ℕ → ℕ → World D → ℕ × World D) (reads : (drivers m).read ≡ some read)
      (writes : (drivers n).write ≡ some write) (is_source : IsSource source sink cells src read)
      (is_sink : IsSink source sink cells dest write) where
    close_lem :
        (s j : ℕ) (f : ℕ → World D → ℕ × World D) (v : Vfs D)
        → v.streams s ≡ some j
        → (drivers j).close ≡ some f
        → fclose drivers s v
          ≡ some (0, record v { streams = update v.streams s none; world = (f s v.world).1 })
    unfolding fclose
    close_lem s j f v at has =
        ap
          (λ t. on_stream t λ i.
            if_present (drivers i).close 1 v λ g.
              some (0, record v { streams = update v.streams s none; world = (g s v.world).1 }))
          at
        ∙ ap
            (λ t. if_present t 1 v λ g.
              some (0, record v { streams = update v.streams s none; world = (g s v.world).1 }))
            has

    close_both_lem :
        (s t : ℕ) (v : Vfs D) (i j : ℕ) (f g : ℕ → World D → ℕ × World D)
        → v.streams s ≡ some i
        → v.streams t ≡ some j
        → s ≢ t
        → (drivers i).close ≡ some f
        → (drivers j).close ≡ some g
        → let v1 : Vfs D = record v {
          streams = update v.streams s none;
          world = (f s v.world).1;
        } in
          close_both drivers s t v
          ≡ some (0, record v1 { streams = update v1.streams t none; world = (g t v1.world).1 })
    close_both_lem s t v i j f g at to apart has_f has_g =
        let v1 : Vfs D = record v { streams = update v.streams s none; world = (f s v.world).1 } in
        ap
          (λ o. elim o [
            | none ↦ none
            | some r ↦ elim (fclose drivers t r.1) [ none ↦ none | some q ↦ some (0, q.1) ]
          ])
          (close_lem s i f v at has_f)
        ∙ ap (λ o. elim o [ none ↦ none | some q ↦ some (0, q.1) ])
            (close_lem t j g v1 (update_ne v.streams s t none apart ∙ to) has_g)

    copy_step :
        (inner fuel buf : ℕ) (v : Vfs D)
        → v.streams src ≡ some m
        → let r = read buf 4096 1 src v.world in
          let v1 : Vfs D = record v { world = r.1 } in
          copy_all drivers inner (suc fuel) buf src dest v ≡ (
            if r.0 == 0 then some v1 else elim (write_out drivers inner buf r.0 dest v1) [
              | none ↦ none
              | some w ↦ copy_all drivers inner fuel buf src dest w
            ])
    unfolding copy_all
    copy_step inner fuel buf v at =
        ap
          (λ o. elim o [
            | none ↦ none
            | some r ↦
                if r.0 == 0 then some r.1 else elim (write_out drivers inner buf r.0 dest r.1) [
                  | none ↦ none
                  | some w ↦ copy_all drivers inner fuel buf src dest w
                ]
          ])
          (fread_lem source sink cells drivers src dest m n read write reads writes is_source
            is_sink buf 4096 v at)

    copy_all_lem :
        (inner fuel buf : ℕ) (v : Vfs D)
        → v.streams src ≡ some m
        → v.streams dest ≡ some n
        → 4096 ≤ inner
        → length (source v.world) < fuel
        → buf + 4096 < 2 ^ 64
        → (w : Vfs D) × (copy_all drivers inner fuel buf src dest v ≡ some w)
          × (sink w.world ≡ sink v.world ++ source v.world)
          × (w.streams ≡ v.streams)
    copy_all_lem inner zero buf v at to large enough fits = absurd (omega arith)
    copy_all_lem inner (suc fuel) buf v at to large enough fits =
        let r = read buf 4096 1 src v.world in
        let v1 : Vfs D = record v { world = r.1 } in
        let after : Option (Vfs D) → Option (Vfs D) =
          λ o. elim o [ none ↦ none | some w ↦ copy_all drivers inner fuel buf src dest w ] in
        let branch =
          λ (b : Bool). if b then some v1 else after (write_out drivers inner buf r.0 dest v1) in
        let page = segment (cells r.1) buf r.0 in
        elim (ℕ_discrete r.0 0) [
          | yes end ↦ (
            v1,
            copy_step inner fuel buf v at ∙ ap branch ((==_iff r.0 0).1 end),
            is_source.apart buf 4096 v.world
                ∙ sym (append-nil (sink v.world))
                ∙ ap (λ l. sink v.world ++ l)
                    (sym (is_source.ended buf 4096 v.world (omega arith) end)),
            refl,
          )
          | no more ↦
              let wo =
                write_out_lem source sink cells drivers src dest m n read write reads writes
                  is_source is_sink inner buf r.0 v1 to (omega arith)
                  (omega (arith, is_source.bounded buf 4096 v.world))
                  (omega (arith, is_source.bounded buf 4096 v.world)) in
              let shorter =
                ap length (is_source.taken buf 4096 v.world) ∙ length-append page (source r.1) in
              let ih =
                copy_all_lem inner fuel buf wo.0 (ap (λ t. t src) wo.4 ∙ at)
                  (ap (λ t. t dest) wo.4 ∙ to) large
                  (omega (arith, shorter, ap length wo.3, length-segment (cells r.1) buf r.0))
                  fits in
              (
                ih.0,
                copy_step inner fuel buf v at ∙ ap branch (ne→== r.0 0 more) ∙ ap after wo.1 ∙ ih.1,
                ih.2
                    ∙ ap₂ (λ l t. l ++ t) wo.2 wo.3
                    ∙ append_assoc (sink r.1) page (source r.1)
                    ∙ ap₂ (λ l t. l ++ t) (is_source.apart buf 4096 v.world)
                        (sym (is_source.taken buf 4096 v.world)),
                ih.3 ∙ wo.4,
              )
        ]

    -- Two names that `fopen` opens as two streams of drivers that read and write as streams do, with
    -- closes that leave the bytes written, a buffer that does not wrap around, and fuel for 4096
    -- writes and for a read of each byte: `copy` returns 0, and the second file has got all the
    -- bytes of the first behind its own, however few of them each read and each write takes.
    pub copy_lem :
        (inner fuel buf : ℕ) (src_name dest_name : List ℕ) (v v1 v2 : Vfs D)
        (close_src close_dest : ℕ → World D → ℕ × World D)
        → eq_text src_name dest_name ≡ false
        → fopen drivers src_name (b'r' ∷ []) v ≡ some (some src, v1)
        → fopen drivers dest_name (b'w' ∷ []) v1 ≡ some (some dest, v2)
        → v2.streams src ≡ some m
        → v2.streams dest ≡ some n
        → src ≢ dest
        → (drivers m).close ≡ some close_src
        → (drivers n).close ≡ some close_dest
        → ((w : World D) → sink (close_src src w).1 ≡ sink w)
        → ((w : World D) → sink (close_dest dest w).1 ≡ sink w)
        → 4096 ≤ inner
        → length (source v2.world) < fuel
        → buf + 4096 < 2 ^ 64
        → (w : Vfs D) × (copy drivers inner fuel buf src_name dest_name v ≡ some (0, w))
          × (sink w.world ≡ sink v2.world ++ source v2.world)
    unfolding copy
    copy_lem inner fuel buf src_name dest_name v v1 v2 close_src close_dest differ opens_src
          opens_dest at to apart has_src has_dest keeps_src keeps_dest large enough fits =
        let all = copy_all_lem inner fuel buf v2 at to large enough fits in
        let w = all.0 in
        let w1 : Vfs D = record w {
          streams = update w.streams src none;
          world = (close_src src w.world).1;
        } in
        let w2 : Vfs D = record w1 {
          streams = update w1.streams dest none;
          world = (close_dest dest w1.world).1;
        } in
        let moved : ℕ → ℕ → Vfs D → Option (ℕ × Vfs D) = λ s t x.
          elim (copy_all drivers inner fuel buf s t x) [
            | none ↦ none
            | some y ↦ close_both drivers s t y
          ] in
        let opened : ℕ → Vfs D → Option (ℕ × Vfs D) =
          λ s x. with_streams drivers (fopen drivers dest_name (b'w' ∷ []) x) (moved s) in
        (
          w2,
          ap
                (λ b.
                  if b
                  then some (0, v)
                  else with_streams drivers (fopen drivers src_name (b'r' ∷ []) v) opened)
                differ
              ∙ ap (λ o. with_streams drivers o opened) opens_src
              ∙ ap (λ o. with_streams drivers o (moved src)) opens_dest
              ∙ ap (λ o. elim o [ none ↦ none | some x ↦ close_both drivers src dest x ]) all.1
              ∙ close_both_lem src dest w m n close_src close_dest (ap (λ t. t src) all.3 ∙ at)
                  (ap (λ t. t dest) all.3 ∙ to) apart has_src has_dest,
          keeps_dest w1.world ∙ keeps_src w.world ∙ all.2,
        )
