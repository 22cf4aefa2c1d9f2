-- ===== src/State/Store/Disk.antt =====
-- `#write` of src/state/store.ts: the file is written beside its place and renamed into it, and what
-- a crashed writer left is swept before. A disk is one directory: its files under their names. Modes
-- are not in the model, nor are errors of `mkdir` and of the sweep, which come before the first write.
pub mod Atomic
pub mod Write
use Prim.Native.String.{String}
use studiobox.Common.{
  ℕ, zero, suc, ◌+◌, Option, none, some, Bool, true, false, ◌&&◌, List, [], ◌∷◌, ◌++◌, map, leb,
  nat_beq, take, drop, length, if◌then◌else◌, ◌==◌,
}
use mathlib.Core.List.{reverse}
use studiobox.Common.Codes.{codes_eq}
use studiobox.Common.Map.{Map, get, set, delete}
use studiobox.Common.{ltb}
use studiobox.Common.Results.{Result, err, ok}
use studiobox.State.Model.{Text, codes}

pub record DiskFile : Type 0 where
  pub content : List ℕ
  pub is_file : Bool
  pub mtime : Option ℕ
  -- Whether the content is kept when the machine stops.
  pub is_synced : Bool

abbrev pub Disk : Type 0
Disk = Map Text DiskFile

-- ABANDONED_TEMP_MAX_AGE_MS
abbrev pub abandoned_temp_max_age_ms : ℕ
abandoned_temp_max_age_ms = 3_600_000

unfoldable pub starts_with : Text → Text → Bool
starts_with [] cs = true
starts_with (p ∷ ps) [] = false
starts_with (p ∷ ps) (c ∷ cs) = if nat_beq p c then starts_with ps cs else false

unfoldable pub ends_with : Text → Text → Bool
unfolding starts_with
ends_with suffix cs = starts_with (reverse suffix) (reverse cs)

-- A temp without an mtime is kept.
unfoldable pub is_old : ℕ → Option ℕ → Bool
is_old now none = false
is_old now (some t) = leb (t + abandoned_temp_max_age_ms) now

unfoldable pub is_abandoned : Text → ℕ → Text → DiskFile → Bool
unfolding starts_with ends_with is_old
is_abandoned target now name f =
    f.is_file
    && starts_with (target ++ codes ".") name
    && ends_with (codes ".tmp") name
    && is_old now f.mtime

unfoldable pub sweep : Text → ℕ → Disk → Disk
unfolding is_abandoned
sweep target now [] = []
sweep target now ((name, f) ∷ disk) =
    let rest = sweep target now disk in
    if is_abandoned target now name f then rest else (name, f) ∷ rest

-- What the write does to the disk, one call after the other.
pub data Effect : Type 0 where
  open_temp sync_temp chmod_temp close_temp rename_temp : Effect
  append : List ℕ → Effect

-- `${this.path}.${crypto.randomUUID()}.tmp`
unfoldable pub temporary : Text → Text → Text
temporary target uuid = target ++ (codes "." ++ (uuid ++ codes ".tmp"))

module _ (temp target : Text) (now : ℕ) where
  append_to : List ℕ → Disk → Option DiskFile → Disk
  append_to bytes disk none = disk
  append_to bytes disk (some f) =
      set disk temp (record f { content = f.content ++ bytes; mtime = some now; is_synced = false })

  sync_to : Disk → Option DiskFile → Disk
  sync_to disk none = disk
  sync_to disk (some f) = set disk temp (record f { is_synced = true })

  rename_to : Disk → Option DiskFile → Disk
  rename_to disk none = disk
  rename_to disk (some f) = set (delete disk temp) target f

  unfoldable pub perform : Effect → Disk → Disk
  unfolding append_to sync_to rename_to
  perform open_temp disk =
      set disk temp (record { content = []; is_file = true; mtime = some now; is_synced = false })
  perform (append bytes) disk = append_to bytes disk (get disk temp)
  perform sync_temp disk = sync_to disk (get disk temp)
  perform chmod_temp disk = disk
  perform close_temp disk = disk
  perform rename_temp disk = rename_to disk (get disk temp)

  unfoldable pub perform_all : List Effect → Disk → Disk
  unfolding perform
  perform_all [] disk = disk
  perform_all (e ∷ es) disk = perform_all es (perform e disk)

-- The write loop: `accepted offset` is the number of bytes that `file.write` takes at an offset.
unfoldable pub chunks : (ℕ → ℕ) → ℕ → ℕ → List ℕ → List (List ℕ)
chunks accepted zero offset rest = []
chunks accepted (suc fuel) offset [] = []
chunks accepted (suc fuel) offset (b ∷ rest) =
    take (accepted offset) (b ∷ rest)
    ∷ chunks accepted fuel (offset + accepted offset) (drop (accepted offset) (b ∷ rest))

-- The calls of a write that goes through.
unfoldable pub write_effects : (ℕ → ℕ) → List ℕ → List Effect
unfolding chunks
write_effects accepted bytes =
    open_temp
    ∷ (map append (chunks accepted (length bytes) 0 bytes)
        ++ sync_temp ∷ chmod_temp ∷ close_temp ∷ rename_temp ∷ [])

-- The machine stops: what was written to a file after its last sync may be lost, and `lost` is what is
-- found under its name then.
unfoldable pub stopped : List ℕ → DiskFile → DiskFile
stopped bytes f = if f.is_synced then f else record f { content = bytes }

unfoldable pub stop : (Text → List ℕ) → Disk → Disk
unfolding stopped
stop lost [] = []
stop lost ((name, f) ∷ disk) = (name, stopped (lost name) f) ∷ stop lost disk

-- The whole write where `temporary` is free, of whose calls the directory has `steps` when the machine
-- stops: those that were made, or fewer, since the directory itself is not synced.
unfoldable pub write_until : (Text → List ℕ) → ℕ → (ℕ → ℕ) → Text → Text → ℕ → List ℕ → Disk → Disk
unfolding sweep perform_all write_effects temporary stop
write_until lost steps accepted target uuid now bytes disk = stop lost (
    perform_all (temporary target uuid) target now (take steps (write_effects accepted bytes))
      (sweep target now disk))

-- What the caller is thrown: the error of the write, or that of the removal of the temporary file.
pub data WriteError : Type 0 where
  write_threw cleanup_threw : WriteError

abbrev pub Finished : Type 0
Finished = Result WriteError (Unit {0}) × Disk

-- The catch clause: `removal_throws` with an error other than NotFound.
unfoldable pub clean_up : Bool → Text → Disk → Finished
clean_up true temp disk = (err cleanup_threw, disk)
clean_up false temp disk = (err write_threw, delete disk temp)

-- `failing` is the number of the call that throws, and the last argument what `createNew` finds.
module _ (removal_throws : Bool) (accepted : ℕ → ℕ) (temp target : Text) (now : ℕ) (bytes : List ℕ)
    (swept : Disk) where
  unfoldable pub perform_until : Option ℕ → Finished
  unfolding clean_up perform_all write_effects
  perform_until none = (ok tt, perform_all temp target now (write_effects accepted bytes) swept)
  perform_until (some k) =
      if ltb k (length (write_effects accepted bytes))
      then clean_up removal_throws temp
          (perform_all temp target now (take k (write_effects accepted bytes)) swept)
      else (ok tt, perform_all temp target now (write_effects accepted bytes) swept)

  unfoldable pub create_new : Option ℕ → Option DiskFile → Finished
  unfolding perform_until
  create_new failing none = perform_until failing
  create_new failing (some f) = clean_up removal_throws temp swept

unfoldable pub write_file : Option ℕ → Bool → (ℕ → ℕ) → Text → Text → ℕ → List ℕ → Disk → Finished
unfolding create_new sweep temporary
write_file failing removal_throws accepted target uuid now bytes disk =
    create_new removal_throws accepted (temporary target uuid) target now bytes
      (sweep target now disk) failing (get (sweep target now disk) (temporary target uuid))
