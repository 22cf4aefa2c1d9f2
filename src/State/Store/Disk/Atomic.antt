-- ===== src/State/Store/Disk/Atomic.antt =====
-- `#write` of src/state/store.ts changes the file at once or not at all.
use studiobox.Common.{
  ℕ, zero, suc, ◌+◌, ◌-◌, ◌≤◌, ◌<◌, ◌≡◌, inl, inr, refl, sym, ap, ◌∙◌, none, some, true, false,
  List, [], ◌∷◌, ◌++◌, map, arith, take, drop, length, ◌==◌, length-append, Bool-cases,
}
use mathlib.Core.List.{append-nil, append_assoc}
use studiobox.Common.Codes.{codes_eq, codes_beq_iff}
use studiobox.Common.Map.{get, set, delete, get-set, get-delete}
use studiobox.State.Model.{Text, codes}
use studiobox.State.Store.Disk.{
  DiskFile, Disk, starts_with, is_abandoned, Effect, sync_temp, chmod_temp, close_temp, rename_temp,
  append, temporary, perform, perform_all, chunks,
}

-- `join("")` on the chunks
abbrev pub concat : List (List ℕ) → List ℕ
concat [] = []
concat (c ∷ cs) = c ++ concat cs

take-drop : (n : ℕ) (xs : List ℕ) → take n xs ++ drop n xs ≡ xs
take-drop zero xs = refl
take-drop (suc n) [] = refl
take-drop (suc n) (x ∷ xs) = ap (λ (ys : List ℕ). x ∷ ys) (take-drop n xs)

length-drop : (n : ℕ) (xs : List ℕ) → length (drop n xs) ≡ length xs - n
length-drop zero xs = omega arith
length-drop (suc n) [] = omega arith
length-drop (suc n) (x ∷ xs) = omega (arith, length-drop n xs)

-- For every file.write that takes at least one byte a call, and every text: as many rounds as the
-- text has bytes are enough for the write loop, and its chunks together are the text.
pub concat-chunks :
    (accepted : ℕ → ℕ) (fuel offset : ℕ) (bytes : List ℕ)
    → ((i : ℕ) → 1 ≤ accepted i)
    → length bytes ≤ fuel
    → concat (chunks accepted fuel offset bytes) ≡ bytes
unfolding chunks
concat-chunks accepted zero offset [] some_byte enough = refl
concat-chunks accepted zero offset (b ∷ rest) some_byte enough = absurd (omega arith)
concat-chunks accepted (suc fuel) offset [] some_byte enough = refl
concat-chunks accepted (suc fuel) offset (b ∷ rest) some_byte enough =
    rw
      (concat-chunks accepted fuel (offset + accepted offset) (drop (accepted offset) (b ∷ rest))
        some_byte (omega (arith, length-drop (accepted offset) (b ∷ rest), some_byte offset)))
      (take-drop (accepted offset) (b ∷ rest))

starts_with_longer : (cs ds : Text) (c : ℕ) → starts_with (cs ++ c ∷ ds) cs ≡ false
unfolding starts_with
starts_with_longer [] ds c = refl
starts_with_longer (x ∷ cs) ds c = ground (arith, starts_with_longer cs ds c)

-- The file itself is never swept.
pub sweep_target :
    (target : Text) (now : ℕ) (f : DiskFile) → is_abandoned target now target f ≡ false
unfolding is_abandoned
sweep_target target now f = ground (arith, starts_with_longer target [] b'.')

pub temporary-ne : (target uuid : Text) → (temporary target uuid == target) ≡ false
unfolding temporary
temporary-ne target uuid = elim (Bool-cases (temporary target uuid == target)) [
  | inl same ↦ absurd (
      omega (
        arith,
        ap length ((codes_beq_iff (temporary target uuid) target).0 same),
        length-append {0} target (codes "." ++ (uuid ++ codes ".tmp")),
      ))
  | inr other ↦ other
]

-- The file holds the text, and there is no temporary file.
abbrev pub IsWritten : Text → Text → List ℕ → Disk → Type 0
IsWritten temp target bytes disk =
    (f : DiskFile) × (get disk target ≡ some f) × (f.content ≡ bytes) × (get disk temp ≡ none)

-- And a stop of the machine keeps it.
abbrev pub IsDurable : Text → Text → List ℕ → Disk → Type 0
IsDurable temp target bytes disk =
    (f : DiskFile) × (get disk target ≡ some f)
    × (f.content ≡ bytes)
    × (f.is_synced ≡ true)
    × (get disk temp ≡ none)

module _ (temp target : Text) (now : ℕ) (apart : (temp == target) ≡ false) where
  -- Only the rename changes the file.
  set_temp :
      (disk : Disk) (g : DiskFile)
      → (get (set disk temp g) target ≡ get disk target) × (get (set disk temp g) temp ≡ some g)
  set_temp disk g = (
    ground (arith, get-set disk temp target g, apart),
    ground (arith, get-set disk temp temp g, codes_beq_iff temp temp),
  )

  perform-append :
      (bytes : List ℕ) (disk : Disk) (f : DiskFile)
      → get disk temp ≡ some f
      → (get (perform temp target now (append bytes) disk) target ≡ get disk target)
        × (g : DiskFile) × (get (perform temp target now (append bytes) disk) temp ≡ some g)
        × (g.content ≡ f.content ++ bytes)
  unfolding perform
  perform-append bytes disk f h =
      let g : DiskFile = record f {
        content = f.content ++ bytes;
        mtime = some now;
        is_synced = false;
      } in
      let (same, found) = set_temp disk g in rw h (same, g, found, refl)

  perform-sync :
      (disk : Disk) (f : DiskFile)
      → get disk temp ≡ some f
      → (get (perform temp target now sync_temp disk) target ≡ get disk target)
        × (get (perform temp target now sync_temp disk) temp ≡ some (record f { is_synced = true }))
  unfolding perform
  perform-sync disk f h = rw h (set_temp disk (record f { is_synced = true }))

  perform-rename :
      (disk : Disk) (f : DiskFile)
      → get disk temp ≡ some f
      → (get (perform temp target now rename_temp disk) target ≡ some f)
        × (get (perform temp target now rename_temp disk) temp ≡ none)
  unfolding perform
  perform-rename disk f h = rw h (
    ground (arith, get-set (delete disk temp) target target f, codes_beq_iff target target),
    ground (
      arith,
      get-set (delete disk temp) target temp f,
      codes_beq_iff target temp,
      codes_beq_iff temp target,
      get-delete disk temp temp,
      codes_beq_iff temp temp,
      apart,
    ),
  )

  take_nil : (k : ℕ) → take {A = Effect} k [] ≡ []
  take_nil zero = refl
  take_nil (suc k) = refl

  abbrev closing : List Effect
  closing = sync_temp ∷ chmod_temp ∷ close_temp ∷ rename_temp ∷ []

  closing-Old :
      (k : ℕ) (disk : Disk) (f : DiskFile)
      → get disk temp ≡ some f
      → k ≤ 3
      → get (perform_all temp target now (take k closing) disk) target ≡ get disk target
  unfolding perform_all perform
  closing-Old zero disk f h few = refl
  closing-Old (suc zero) disk f h few = (perform-sync disk f h).0
  closing-Old (suc (suc zero)) disk f h few = (perform-sync disk f h).0
  closing-Old (suc (suc (suc zero))) disk f h few = (perform-sync disk f h).0
  closing-Old (suc (suc (suc (suc k)))) disk f h few = absurd (omega arith)

  closing-New :
      (k : ℕ) (disk : Disk) (f : DiskFile)
      → get disk temp ≡ some f
      → 3 < k
      → IsDurable temp target f.content (perform_all temp target now (take k closing) disk)
  unfolding perform_all perform
  closing-New zero disk f h many = absurd (omega arith)
  closing-New (suc zero) disk f h many = absurd (omega arith)
  closing-New (suc (suc zero)) disk f h many = absurd (omega arith)
  closing-New (suc (suc (suc zero))) disk f h many = absurd (omega arith)
  closing-New (suc (suc (suc (suc k)))) disk f h many =
      let synced = perform temp target now sync_temp disk in
      let renamed =
        perform-rename synced (record f { is_synced = true }) (perform-sync disk f h).1 in
      rw (take_nil k) (record f { is_synced = true }, renamed.0, refl, refl, renamed.1)

  abbrev After : ℕ → List (List ℕ) → Disk → Disk
  After k cs disk = perform_all temp target now (take k (map append cs ++ closing)) disk

  pub appends-Old :
      (k : ℕ) (cs : List (List ℕ)) (disk : Disk) (f : DiskFile)
      → get disk temp ≡ some f
      → k ≤ length cs + 3
      → get (After k cs disk) target ≡ get disk target
  unfolding perform_all
  appends-Old zero cs disk f h few = refl
  appends-Old (suc k) [] disk f h few = closing-Old (suc k) disk f h (omega arith)
  appends-Old (suc k) (c ∷ cs) disk f h few =
      let (same, g, found, grown) = perform-append c disk f h in
      appends-Old k cs (perform temp target now (append c) disk) g found (omega arith) ∙ same

  pub appends-New :
      (k : ℕ) (cs : List (List ℕ)) (disk : Disk) (f : DiskFile)
      → get disk temp ≡ some f
      → length cs + 3 < k
      → IsDurable temp target (f.content ++ concat cs) (After k cs disk)
  unfolding perform_all
  appends-New zero cs disk f h many = absurd (omega arith)
  appends-New (suc k) [] disk f h many =
      let (t, holds, text, kept, gone) = closing-New (suc k) disk f h (omega arith) in
      (t, holds, text ∙ sym (append-nil f.content), kept, gone)
  appends-New (suc k) (c ∷ cs) disk f h many =
      let (same, g, found, grown) = perform-append c disk f h in
      let (t, holds, text, kept, gone) =
        appends-New k cs (perform temp target now (append c) disk) g found (omega arith) in
      (
        t,
        holds,
        text ∙ ap (λ (x : List ℕ). x ++ concat cs) grown ∙ append_assoc f.content c (concat cs),
        kept,
        gone,
      )
