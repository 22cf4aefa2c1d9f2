-- ===== src/State/Store/Disk/Write.antt =====
-- `#write` of src/state/store.ts as a whole: what a machine that stops, or a call that throws, leaves.
use studiobox.Common.{
  ℕ, Option, take, zero, suc, ◌+◌, ◌≤◌, ◌<◌, ◌≡◌, inl, inr, refl, ap, subst, ◌∙◌, none, some, true,
  false, List, [], ◌∷◌, map, arith, length, ◌==◌, length-append, Bool-cases,
}
use studiobox.Common.Codes.{codes_eq, codes_beq_iff}
use studiobox.Common.Map.{get, get-set}
use studiobox.State.Model.{Text}
use studiobox.State.Store.Disk.{
  DiskFile, Disk, is_abandoned, sweep, open_temp, sync_temp, chmod_temp, close_temp, rename_temp,
  append, temporary, perform, perform_all, chunks, write_effects, stopped, stop, write_until,
  write_threw, cleanup_threw, Finished,
}
use studiobox.State.Store.Disk.Atomic.{
  concat-chunks, sweep_target, temporary-ne, appends-Old, appends-New, IsWritten, IsDurable,
}
use studiobox.Common.{sym}
use studiobox.Common.Results.{err, ok}

length-map_append : (cs : List (List ℕ)) → length (map append cs) ≡ length cs
length-map_append [] = refl
length-map_append (c ∷ cs) = omega (arith, length-map_append cs)

-- For every directory, time and name other than the abandoned ones: sweeping keeps the file as it
-- is.
get-sweep :
    (target : Text) (now : ℕ) (disk : Disk) (name : Text)
    → ((f : DiskFile) → is_abandoned target now name f ≡ false)
    → get (sweep target now disk) name ≡ get disk name
unfolding sweep get
get-sweep target now [] name kept = refl
get-sweep target now ((j, f) ∷ disk) name kept = elim (Bool-cases (j == name)) [
  | inl same ↦
      let e = (codes_beq_iff j name).0 same in
      let stays : is_abandoned target now j f ≡ false =
        ap (λ n. is_abandoned target now n f) e ∙ kept f in
      rw (stays, same) refl
  | inr other ↦ ground (arith, get-sweep target now disk name kept, other)
]

kept_stopped : (bytes : List ℕ) (f : DiskFile) → f.is_synced ≡ true → stopped bytes f ≡ f
unfolding stopped
kept_stopped bytes f h = ground (arith, h)

-- What a stop of the machine leaves of each file.
get-stop :
    (lost : Text → List ℕ) (disk : Disk) (name : Text)
    → (o : Option DiskFile) → get disk name ≡ o
    → ((f : DiskFile) → o ≡ some f → f.is_synced ≡ true)
    → get (stop lost disk) name ≡ o
unfolding stop get
get-stop lost [] name o h synced = h
get-stop lost ((j, f) ∷ disk) name o h synced = elim (Bool-cases (j == name)) [
  | inl same ↦
      let found : o ≡ some f = ground (arith, h, same) in
      rw same (ap some (kept_stopped (lost j) f (synced f found)) ∙ sym found)
  | inr other ↦ rw other (get-stop lost disk name o (ground (arith, h, other)) synced)
]

stop-IsDurable :
    (lost : Text → List ℕ) (temp target : Text) (bytes : List ℕ) (disk : Disk)
    → IsDurable temp target bytes disk
    → IsWritten temp target bytes (stop lost disk)
stop-IsDurable lost temp target bytes disk (f, found, text, kept, gone) = (
  f,
  get-stop lost disk target (some f) found
      (λ g e. ap (λ (x : DiskFile). x.is_synced) (some_is f g e) ∙ kept),
  text,
  get-stop lost disk temp none gone (λ g e. absurd (ground (arith, e))),
)
  where
    some_is : (f g : DiskFile) → some f ≡ some g → g ≡ f
    some_is f g e = cc

module _ (accepted : ℕ → ℕ) (target uuid : Text) (now : ℕ) (bytes : List ℕ) (disk : Disk) where
  abbrev new_file : DiskFile
  new_file = record { content = []; is_file = true; mtime = some now; is_synced = false }

  abbrev opened : Disk
  opened = perform (temporary target uuid) target now open_temp (sweep target now disk)

  opened-temp : get opened (temporary target uuid) ≡ some (new_file)
  unfolding perform
  opened-temp = ground (
    arith,
    get-set (sweep target now disk) (temporary target uuid) (temporary target uuid) (new_file),
    codes_beq_iff (temporary target uuid) (temporary target uuid),
  )

  opened-target : get opened target ≡ get disk target
  unfolding perform
  opened-target = ground (
    arith,
    get-set (sweep target now disk) (temporary target uuid) target (new_file),
    temporary-ne target uuid,
    get-sweep target now disk target (sweep_target target now),
  )

  abbrev text_chunks : List (List ℕ)
  text_chunks = chunks accepted (length bytes) 0 bytes

  length-write_effects : length (write_effects accepted bytes) ≡ length text_chunks + 5
  unfolding write_effects
  length-write_effects = omega (
    arith,
    length-append {0} (map append text_chunks)
        (sync_temp ∷ chmod_temp ∷ close_temp ∷ rename_temp ∷ []),
    length-map_append text_chunks,
  )

  abbrev performed : ℕ → Disk
  performed k =
      perform_all (temporary target uuid) target now (take k (write_effects accepted bytes))
        (sweep target now disk)

  -- As long as the last call is missing, the file is as it was.
  performed-Old :
      (k : ℕ)
      → k < length (write_effects accepted bytes)
      → get (performed k) target ≡ get disk target
  unfolding perform_all sweep write_effects
  performed-Old zero h = get-sweep target now disk target (sweep_target target now)
  performed-Old (suc k) h =
      appends-Old (temporary target uuid) target now (temporary-ne target uuid) k text_chunks opened
        _ opened-temp (omega (arith, length-write_effects))
      ∙ opened-target

  performed-IsDurable :
      (k : ℕ)
      → length (write_effects accepted bytes) ≤ k
      → ((i : ℕ) → 1 ≤ accepted i)
      → IsDurable (temporary target uuid) target bytes (performed k)
  unfolding perform_all write_effects
  performed-IsDurable zero h some_byte = absurd (omega (arith, length-write_effects))
  performed-IsDurable (suc k) h some_byte =
      subst (λ text. IsDurable (temporary target uuid) target text (performed (suc k)))
        (concat-chunks accepted (length bytes) 0 bytes some_byte (omega arith))
        (appends-New (temporary target uuid) target now (temporary-ne target uuid) k text_chunks
          opened _ opened-temp (omega (arith, length-write_effects)))

  module _ (lost : Text → List ℕ)
      (synced : (f : DiskFile) → get disk target ≡ some f → f.is_synced ≡ true) where
    stop-Old :
        (d : Disk) → get d target ≡ get disk target → get (stop lost d) target ≡ get disk target
    stop-Old d same = get-stop lost d target (get disk target) same synced

    -- For every write whose temporary name is free, every directory whose file was synced, every
    -- text, every number of the write's calls that
    -- the directory has when the machine stops, and whatever the stop makes of what was not synced: as
    -- long as it is not all of them, the file is as it was. With all of them the file holds the text
    -- and the temporary file is gone, if every file.write takes at least one byte.
    pub write_until_atomic :
        (steps : ℕ)
        → (steps < length (write_effects accepted bytes)
            → get (write_until lost steps accepted target uuid now bytes disk) target
              ≡ get disk target)
          × (length (write_effects accepted bytes) ≤ steps
              → ((i : ℕ) → 1 ≤ accepted i)
              → IsWritten
                  (temporary target uuid)
                  target
                  bytes
                  (write_until lost steps accepted target uuid now bytes disk))
    unfolding write_until
    write_until_atomic steps = (
      λ h. stop-Old (performed steps) (performed-Old steps h),
      λ h some_byte.
          stop-IsDurable lost (temporary target uuid) target bytes (performed steps)
            (performed-IsDurable steps h some_byte),
    )

    -- What a call that ended has left: with the machine stopped after it, for the file.
    abbrev pub HasLeft : Finished → Type 0
    HasLeft (ok u, d) = IsWritten (temporary target uuid) target bytes (stop lost d)
    HasLeft (err write_threw, d) =
        (get (stop lost d) target ≡ get disk target) × (get d (temporary target uuid) ≡ none)
    HasLeft (err cleanup_threw, d) = get (stop lost d) target ≡ get disk target
