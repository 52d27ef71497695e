-- ===== src/BootFiles/Reads.antt =====
-- src/fs/stivale/vfs.cpp: what `read` copies, and that a file has no end for a reader.
use fox_os_kernel.Prelude.{
  ℕ, zero, suc, ◌+◌, ◌^◌, ◌≤◌, ◌<◌, ◌≡◌, refl, sym, ap, ap₂, ◌∙◌, subst, ◌⊎◌, inl, inr, Bool, true,
  false, Option, none, some, arith, ℕ_discrete, ◌==◌, if◌then◌else◌, add64, sub64, update,
  update_self, update_ne, for_range_inv,
}
use fox_os_kernel.Strings.Copy.{Copied, Disjoint}
use fox_os_kernel.Vfs.{VfsMount, World, Vfs, on_stream, if_present, answer}
use fox_os_kernel.Vfs.Files.{fread, fwrite}
use fox_os_kernel.Vfs.Moves.{write_out, copy_all}
use fox_os_kernel.BootFiles.{Ram, copy_byte, stivale_modules_read}

module _ (buffer s : ℕ) (w : World Ram) where
  abbrev pub from : ℕ
  from = (w.device.files s).data_at + (w.device.files s).pos

  abbrev pub Read : ℕ → World Ram → Type 0
  Read n v = Copied buffer from n w.device.bytes v.device.bytes × (v.device.files ≡ w.device.files)

  -- One byte more.
  Copied-more :
      (size k : ℕ) (bytes : ℕ → ℕ)
      → k < size
      → Disjoint buffer from size
      → Copied buffer from k w.device.bytes bytes
      → Copied buffer from (k + 1) w.device.bytes (update bytes (buffer + k) (bytes (from + k)))
  Copied-more size k bytes lt apart c = (
    λ j l. elim (ℕ_discrete j k) [
      | yes e ↦
          ap (λ i. update bytes (buffer + k) (bytes (from + k)) (buffer + i)) e
          ∙ update_self bytes (buffer + k) (bytes (from + k))
          ∙ c.1 (from + k) (outside apart)
          ∙ ap (λ i. w.device.bytes (from + i)) (sym e)
      | no ne ↦
          update_ne bytes (buffer + k) (buffer + j) (bytes (from + k)) (λ q. ne (omega arith))
          ∙ c.0 j (omega arith)
    ],
    λ a h.
        update_ne bytes (buffer + k) a (bytes (from + k))
          (λ q. elim h [ inl l ↦ omega arith | inr r ↦ omega arith ])
        ∙ c.1 a (elim h [ inl l ↦ inl l | inr r ↦ inr (omega arith) ]),
  )
    where
      outside : Disjoint buffer from size → (from + k < buffer) ⊎ (buffer + k ≤ from + k)
      outside (inl d) = inr (omega arith)
      outside (inr d) = inl (omega arith)

  step :
      (size : ℕ)
      → Disjoint buffer from size
      → buffer + size < 2 ^ 64
      → from + size < 2 ^ 64
      → (k : ℕ) (v : World Ram) → k < size
      → Read k v
      → Read (k + 1) (copy_byte buffer s k v)
  unfolding copy_byte
  step size apart fits_buffer fits k v lt (c, same) =
      let at = add64 (add64 (v.device.files s).data_at k) (v.device.files s).pos in
      let to_eq : add64 buffer k ≡ buffer + k = omega arith in
      let at_eq : at ≡ from + k =
        ap (λ g. add64 (add64 (g s).data_at k) (g s).pos) same ∙ omega arith in
      (
        subst {A = ℕ × ℕ}
            (λ p.
              Copied buffer from (k + 1) w.device.bytes
                (update v.device.bytes p.0 (v.device.bytes p.1)))
            (sym (ap₂ (λ x y. (x, y)) to_eq at_eq)) (Copied-more size k v.device.bytes lt apart c),
        same,
      )

  -- A buffer and the bytes of the module from the position on that do not overlap and do not wrap around:
  -- `read` gives `size`, copies that many bytes, also those behind the end of the module, and changes
  -- no other byte and no stream.
  pub read_lem :
      (size nmemb : ℕ)
      → Disjoint buffer from size
      → buffer + size < 2 ^ 64
      → from + size < 2 ^ 64
      → ((stivale_modules_read buffer size nmemb s w).0 ≡ size)
        × Read size (stivale_modules_read buffer size nmemb s w).1
  unfolding stivale_modules_read
  read_lem size nmemb apart fits_buffer fits = (
    refl,
    for_range_inv Read (copy_byte buffer s) size 0 size (omega arith)
        (step size apart fits_buffer fits) w ((λ j lt. absurd (omega arith), λ a h. refl), refl),
  )

module _ {D : Type 0} (v : Vfs D) where
  -- Where there is a state, its streams are those of `v`.
  abbrev Keeps : Option (Vfs D) → Type 0
  Keeps none = Unit
  Keeps (some w) = w.streams ≡ v.streams

  abbrev KeepsToo : Option (ℕ × Vfs D) → Type 0
  KeepsToo none = Unit
  KeepsToo (some r) = r.1.streams ≡ v.streams

  on_stream-Keeps :
      (o : Option ℕ) (next : ℕ → Option (ℕ × Vfs D))
      → ((m : ℕ) → KeepsToo (next m))
      → KeepsToo (on_stream o next)
  on_stream-Keeps none next h = tt
  on_stream-Keeps (some m) next h = h m

  if_present-Keeps :
      {F : Type 0} (o : Option F) (value : ℕ) (next : F → Option (ℕ × Vfs D))
      → ((f : F) → KeepsToo (next f))
      → KeepsToo (if_present o value v next)
  if_present-Keeps none value next h = refl
  if_present-Keeps (some f) value next h = h f

module _ {D : Type 0} (drivers : ℕ → VfsMount D) where
  fwrite-Keeps : (ptr size nmemb s : ℕ) (v : Vfs D) → KeepsToo v (fwrite drivers ptr size nmemb s v)
  unfolding fwrite
  fwrite-Keeps ptr size nmemb s v =
      on_stream-Keeps v (v.streams s) _ (λ m. if_present-Keeps v (drivers m).write 0 _ (λ f. refl))

  after_write : ℕ → ℕ → ℕ → ℕ → Option (ℕ × Vfs D) → Option (Vfs D)
  after_write fuel out_ptr nread dest o = elim o [
    | none ↦ none
    | some r ↦
        let rest = write_out drivers fuel (add64 out_ptr r.0) (sub64 nread r.0) dest r.1 in
        if sub64 nread r.0 == 0 then some r.1 else rest
  ]

  either :
      (v : Vfs D) (b : Bool) (x y : Option (Vfs D))
      → Keeps v x
      → Keeps v y
      → Keeps v (if b then x else y)
  either v true x y h k = h
  either v false x y h k = k

  later : (v w : Vfs D) (o : Option (Vfs D)) → w.streams ≡ v.streams → Keeps w o → Keeps v o
  later v w none e h = tt
  later v w (some x) e h = h ∙ e

  after_write-Keeps :
      (fuel ptr nread dest : ℕ) (v : Vfs D) (o : Option (ℕ × Vfs D))
      → ((p k : ℕ) (w : Vfs D) → Keeps w (write_out drivers fuel p k dest w))
      → KeepsToo v o
      → Keeps v (after_write fuel ptr nread dest o)
  unfolding after_write
  after_write-Keeps fuel ptr nread dest v none rest h = tt
  after_write-Keeps fuel ptr nread dest v (some r) rest h =
      either v (sub64 nread r.0 == 0) (some r.1) _ h
        (later v r.1 _ h (rest (add64 ptr r.0) (sub64 nread r.0) r.1))

  write_out-Keeps :
      (fuel ptr nread dest : ℕ) (v : Vfs D) → Keeps v (write_out drivers fuel ptr nread dest v)
  unfolding write_out after_write
  write_out-Keeps zero ptr nread dest v = tt
  write_out-Keeps (suc fuel) ptr nread dest v =
      after_write-Keeps fuel ptr nread dest v (fwrite drivers ptr nread 1 dest v)
        (λ p k w. write_out-Keeps fuel p k dest w) (fwrite-Keeps ptr nread 1 dest v)

module _ (drivers : ℕ → VfsMount Ram) (inner buf src dest m : ℕ) where
  next_round : ℕ → Option (Vfs Ram) → Option (Vfs Ram)
  next_round fuel o = elim o [ none ↦ none | some w ↦ copy_all drivers inner fuel buf src dest w ]

  next_round-none :
      (fuel : ℕ) (v : Vfs Ram) (o : Option (Vfs Ram))
      → v.streams src ≡ some m
      → Keeps v o
      → ((w : Vfs Ram) → w.streams src ≡ some m → copy_all drivers inner fuel buf src dest w ≡ none)
      → next_round fuel o ≡ none
  unfolding next_round
  next_round-none fuel v none at h rest = refl
  next_round-none fuel v (some w) at h rest = rest w (ap (λ t. t src) h ∙ at)

  -- A stream of this driver, whatever the driver of the other stream does: the loop of `copy` does not
  -- end within any number of rounds, since each read claims all the 4096 bytes.
  pub copy_all_endless :
      (fuel : ℕ) (v : Vfs Ram)
      → (drivers m).read ≡ some stivale_modules_read
      → v.streams src ≡ some m
      → copy_all drivers inner fuel buf src dest v ≡ none
  unfolding copy_all fread stivale_modules_read next_round
  copy_all_endless zero v has at = refl
  copy_all_endless (suc fuel) v has at =
      let r = stivale_modules_read buf 4096 1 src v.world in
      let v1 : Vfs Ram = record v { world = r.1 } in
      ap
        (λ o. elim o [
          | none ↦ none
          | some q ↦
              if q.0 == 0
              then some q.1
              else next_round fuel (write_out drivers inner buf q.0 dest q.1)
        ])
        (ap
            (λ t.
              on_stream t
                λ j. if_present (drivers j).read 0 v λ f. answer v (f buf 4096 1 src v.world))
            at
          ∙ ap (λ t. if_present t 0 v λ f. answer v (f buf 4096 1 src v.world)) has)
      ∙ next_round-none fuel v1 (write_out drivers inner buf 4096 dest v1) at
          (write_out-Keeps drivers inner buf 4096 dest v1) (λ w k. copy_all_endless fuel w has k)
