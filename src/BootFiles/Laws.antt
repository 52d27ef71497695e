-- ===== src/BootFiles/Laws.antt =====
-- src/fs/stivale/vfs.cpp: what `open` and `read` give, and that a file never ends.
use fox_os_kernel.Prelude.{
  ℕ, zero, suc, ◌+◌, ◌-◌, ◌^◌, ◌≤◌, ◌<◌, ◌≡◌, refl, sym, ap, ap₂, ◌∙◌, subst, ◌≢◌, ◌⊎◌, inl, inr,
  true, false, not, ◌&&◌, Option, none, some, List, [], ◌∷◌, arith, ℕ_discrete, if◌then◌else◌,
  Bool-cases, sub64, update_self, update_ne,
}
use fox_os_kernel.Vfs.{set_errno, World, eq_text, code, vfs_not_implemented, vfs_file_not_found}
use fox_os_kernel.Vfs.Mounts.{eq_text_refl, eq_text_sound}
use fox_os_kernel.BootFiles.{
  Ram, BootModule, put_file, refused, is_unsupported, find_module, search_result, set_flags,
  stivale_modules_open,
}

differs : (s t : List ℕ) → s ≢ t → eq_text s t ≡ false
differs s t ne = elim (Bool-cases (eq_text s t)) [
  | inl e ↦ absurd (ne (eq_text_sound s t e))
  | inr e ↦ e
]

find_module-none :
    (name : List ℕ) (mods : ℕ → BootModule) (i n last : ℕ)
    → i + n ≡ last
    → ((j : ℕ) → j < last → (mods j).string ≢ name)
    → find_module name mods i n ≡ none
unfolding find_module
find_module-none name mods i zero last e h = refl
find_module-none name mods i (suc n) last e h =
    ap (λ b. if b then some i else find_module name mods (i + 1) n)
      (differs (mods i).string name (h i (omega arith)))
    ∙ find_module-none name mods (i + 1) n last (omega arith) h

find_module_first :
    (name : List ℕ) (mods : ℕ → BootModule) (i n k : ℕ)
    → i ≤ k
    → k < i + n
    → (mods k).string ≡ name
    → ((j : ℕ) → j < k → (mods j).string ≢ name)
    → find_module name mods i n ≡ some k
unfolding find_module
find_module_first name mods i zero k lo hi here h = absurd (omega arith)
find_module_first name mods i (suc n) k lo hi here h = elim (ℕ_discrete i k) [
  | yes e ↦
      ap (λ b. if b then some i else find_module name mods (i + 1) n)
        (ap₂ eq_text (ap (λ j. (mods j).string) e ∙ here) refl ∙ eq_text_refl name)
      ∙ ap some e
  | no ne ↦
      ap (λ b. if b then some i else find_module name mods (i + 1) n)
        (differs (mods i).string name (h i (omega arith)))
      ∙ find_module_first name mods (i + 1) n k (omega arith) (omega arith) here h
]

module _ (allocate : World Ram → ℕ) (mods : ℕ → BootModule) (count : ℕ) where
  module _ (file : List ℕ) (w : World Ram) where
    flagged : World Ram
    flagged =
        put_file (allocate w)
          (record (w.device.files (allocate w)) { is_readable = 1; is_writable = 0 }) w

    open_r :
        stivale_modules_open allocate mods count file (b'r' ∷ []) w
        ≡ search_result mods (allocate w) (find_module file mods 0 count) flagged
    unfolding stivale_modules_open flagged
    open_r = refl

    -- `open` for reading, of a file that module `k` is the first one to have the name of, with an end
    -- that is not below its beginning: it gives a stream that starts at the module's first byte and has
    -- its size, and it leaves the error number, the bytes of memory and every other stream as they are.
    pub open_lem :
        (k : ℕ)
        → k < count
        → (mods k).string ≡ file
        → ((j : ℕ) → j < k → (mods j).string ≢ file)
        → (mods k).first ≤ (mods k).last
        → (mods k).last < 2 ^ 64
        → let r = stivale_modules_open allocate mods count file (b'r' ∷ []) w in
          (r.0 ≡ some (allocate w))
          × ((r.1.device.files (allocate w)).data_at ≡ (mods k).first)
          × ((r.1.device.files (allocate w)).size ≡ (mods k).last - (mods k).first)
          × (r.1.errno ≡ w.errno)
          × (r.1.device.bytes ≡ w.device.bytes)
          × ((t : ℕ) → allocate w ≢ t → r.1.device.files t ≡ w.device.files t)
    unfolding flagged
    open_lem k lt here none_before order fits =
        let run =
          open_r
          ∙ ap (λ o. search_result mods (allocate w) o flagged)
              (find_module_first file mods 0 count k (omega arith) (omega arith) here
                none_before) in
        let Opens : (Option ℕ × World Ram) → Type 0 = λ r.
          (r.0 ≡ some (allocate w))
          × ((r.1.device.files (allocate w)).data_at ≡ (mods k).first)
          × ((r.1.device.files (allocate w)).size ≡ (mods k).last - (mods k).first)
          × (r.1.errno ≡ w.errno)
          × (r.1.device.bytes ≡ w.device.bytes)
          × ((t : ℕ) → allocate w ≢ t → r.1.device.files t ≡ w.device.files t) in
        let found = record (flagged.device.files (allocate w)) {
          size = sub64 (mods k).last (mods k).first;
          data_at = (mods k).first;
        } in
        subst Opens (sym run) (
          refl,
          ap (λ f. f.data_at) (update_self flagged.device.files (allocate w) found),
          ap (λ f. f.size) (update_self flagged.device.files (allocate w) found) ∙ omega arith,
          refl,
          refl,
          λ t ne.
              update_ne flagged.device.files (allocate w) t found ne
              ∙ update_ne w.device.files (allocate w) t
                  (record (w.device.files (allocate w)) { is_readable = 1; is_writable = 0 }) ne,
        )

    -- A stream that is marked, with the error number of the reason.
    abbrev pub Refuses : List ℕ → Option ℕ × World Ram → Type 0
    Refuses mode r =
        (r.0 ≡ some (allocate w))
        × ((r.1.device.files (allocate w)).is_error ≡ 1)
        × (((mode ≢ b'r' ∷ []) × (r.1.errno ≡ set_errno (code vfs_not_implemented) w.errno))
            ⊎ ((mode ≡ b'r' ∷ []) × (r.1.errno ≡ set_errno (code vfs_file_not_found) w.errno)))

    -- `open` for writing, appending, or reading and writing, and `open` for reading where no module has
    -- the name: it gives a stream all the same and marks it with `is_error`, and the error number of a
    -- task that has one is `VFS_NOT_IMPLEMENTED` in the first case and `VFS_FILE_NOT_FOUND` in the second.
    pub open-Refuses :
        (mode : List ℕ)
        → ((mode ≢ b'r' ∷ []) × (is_unsupported mode ≡ true))
          ⊎ ((mode ≡ b'r' ∷ []) × ((j : ℕ) → j < count → (mods j).string ≢ file))
        → Refuses mode (stivale_modules_open allocate mods count file mode w)
    unfolding flagged stivale_modules_open
    open-Refuses mode (inl (other, listed)) =
        subst (Refuses mode)
          (sym (
            ap₂
              (λ b c.
                if not b && c
                then refused (allocate w) (code vfs_not_implemented) w
                else search_result mods (allocate w) (find_module file mods 0 count)
                    (set_flags mode (allocate w) w))
              (differs mode (b'r' ∷ []) other) listed))
          (
            refl,
            ap (λ f. f.is_error)
                (update_self w.device.files (allocate w)
                  (record (w.device.files (allocate w)) { is_error = 1 })),
            inl (other, refl),
          )
    open-Refuses mode (inr (reading, absent)) =
        let run =
          ap (λ m. stivale_modules_open allocate mods count file m w) reading
          ∙ open_r
          ∙ ap (λ o. search_result mods (allocate w) o flagged)
              (find_module-none file mods 0 count count (omega arith) absent) in
        subst (Refuses mode) (sym run) (
          refl,
          ap (λ f. f.is_error)
              (update_self flagged.device.files (allocate w)
                (record (flagged.device.files (allocate w)) { is_error = 1 })),
          inr (reading, refl),
        )
