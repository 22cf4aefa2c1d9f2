-- ===== src/Rootd/Supervisor/Update.antt =====
-- `#update` of src/rootd/supervisor_core.ts: a swap that is tried again while other writers win.
use studiobox.Common.{
  ℕ, zero, suc, ◌<◌, ◌≡◌, ◌≢◌, ◌⊎◌, inl, inr, refl, sym, ap, subst, ◌∙◌, Option, none, some, Bool,
  arith, Bool-cases, nat_beq, nat_beq_iff,
}
use studiobox.Common.Results.{Result, err, ok}
use studiobox.State.Model.{Text, SandboxRecord}
use studiobox.State.Store.{
  StoreError, state_conflict, state_corrupt, invalid_record, update_threw, StateFile, Update,
  get_record, compare_and_swap,
}
use studiobox.State.Store.Swap.{
  Swapped, compare_and_swap-Swapped, compare_and_swap_fresh, get_record-eq-some,
}
use studiobox.State.Store.Read.{get-AreKeyed, read-AreKeyed}
use studiobox.Rootd.Supervisor.Journal.{Fault, sup_not_found}

-- What the caller gets, and the file as it is then.
abbrev pub Outcome : Type 0
Outcome = Result (StoreError Fault) SandboxRecord × StateFile

abbrev pub max_cas_attempts : ℕ
max_cas_attempts = 16

-- After one swap: `retry` is what the next attempts come to.
unfoldable pub after_swap :
    Outcome → StateFile → Result (StoreError Fault) (SandboxRecord × StateFile) → Outcome
after_swap retry changed (ok (r, next)) = (ok r, next)
after_swap retry changed (err state_conflict) = retry
after_swap retry changed (err state_corrupt) = (err state_corrupt, changed)
after_swap retry changed (err invalid_record) = (err invalid_record, changed)
after_swap retry changed (err (update_threw fault)) = (err (update_threw fault), changed)

unfoldable pub after_get :
    (SandboxRecord → Outcome)
    → StateFile
    → Result (StoreError Fault) (Option SandboxRecord)
    → Outcome
after_get swap file (err e) = (err e, file)
after_get swap file (ok none) = (err (update_threw sup_not_found), file)
after_get swap file (ok (some r)) = swap r

-- `world n` is what other writers do to the file between the read and the swap of an attempt, of
-- which n more follow.
module _ (parses : Text → Bool) (id : Text) (mutate : Update Fault) (now : Text)
    (world : ℕ → StateFile → StateFile) where
  unfoldable pub update : ℕ → StateFile → Outcome
  unfolding after_swap after_get
  update zero file = (err state_conflict, file)
  update (suc n) file =
      after_get
        (λ r.
          let rest = update n (world n file) in
          after_swap rest (world n file)
            (compare_and_swap parses id r.revision mutate now (world n file)))
        file (get_record parses id file)

  -- What other writers made of a file.
  pub data Reaches : StateFile → StateFile → Type 0 where
    unchanged : {file : StateFile} → Reaches file file
    changed : {file later : StateFile} (n : ℕ) → Reaches (world n file) later → Reaches file later

  -- A returned record was made by one swap, and a thrown error left no trace.
  abbrev pub Settled : StateFile → Outcome → Type 0
  Settled file (ok r, after) =
      (before : StateFile) × Reaches file before × Swapped parses Fault id mutate now before r after
  Settled file (err e, after) = Reaches file after

  changed-Settled :
      (n : ℕ) (file : StateFile) (o : Outcome) → Settled (world n file) o → Settled file o
  changed-Settled n file (ok r, after) (before, reaches, swapped) =
      (before, Reaches.changed n reaches, swapped)
  changed-Settled n file (err e, after) reaches = Reaches.changed n reaches

  after_swap-Settled :
      (retry : Outcome) (file : StateFile) (revision : ℕ)
      (o : Result (StoreError Fault) (SandboxRecord × StateFile))
      → compare_and_swap parses id revision mutate now file ≡ o
      → Settled file retry
      → Settled file (after_swap retry file o)
  unfolding after_swap
  after_swap-Settled retry file revision (ok (r, next)) e h = (
    file,
    Reaches.unchanged,
    compare_and_swap-Swapped parses Fault id revision mutate now file next r e,
  )
  after_swap-Settled retry file revision (err state_conflict) e h = h
  after_swap-Settled retry file revision (err state_corrupt) e h = Reaches.unchanged
  after_swap-Settled retry file revision (err invalid_record) e h = Reaches.unchanged
  after_swap-Settled retry file revision (err (update_threw fault)) e h = Reaches.unchanged

  after_get-Settled :
      (swap : SandboxRecord → Outcome) (file : StateFile)
      (o : Result (StoreError Fault) (Option SandboxRecord))
      → ((r : SandboxRecord) → Settled file (swap r))
      → Settled file (after_get swap file o)
  unfolding after_get
  after_get-Settled swap file (err e) h = Reaches.unchanged
  after_get-Settled swap file (ok none) h = Reaches.unchanged
  after_get-Settled swap file (ok (some r)) h = h r

  -- For every number of attempts, mutate, and interference of other writers: an update that returns
  -- has called mutate on the record that the file held when it was swapped, has stored the result with
  -- the next revision and no other change, and that once; an update that throws has changed nothing.
  pub update-Settled : (attempts : ℕ) (file : StateFile) → Settled file (update attempts file)
  unfolding update
  update-Settled zero file = Reaches.unchanged
  update-Settled (suc n) file = after_get-Settled _ file (get_record parses id file) (λ r.
      changed-Settled n file _ (
        after_swap-Settled (update n (world n file)) (world n file) r.revision _ refl
          (update-Settled n (world n file))))

  after_swap_retries :
      (retry : Outcome) (file : StateFile)
      (o : Result (StoreError Fault) (SandboxRecord × StateFile))
      → (retry.0 ≢ err state_conflict) ⊎ (o ≢ err state_conflict)
      → (after_swap retry file o).0 ≢ err state_conflict
  unfolding after_swap
  after_swap_retries retry file (ok (r, next)) h e = ground (arith, e)
  after_swap_retries retry file (err state_conflict) (inl h) e = h e
  after_swap_retries retry file (err state_conflict) (inr h) e = h refl
  after_swap_retries retry file (err state_corrupt) h e = ground (arith, e)
  after_swap_retries retry file (err invalid_record) h e = ground (arith, e)
  after_swap_retries retry file (err (update_threw fault)) h e = ground (arith, e)

  -- The other writers leave the record readable under its id.
  abbrev pub Readable : StateFile → Type 0
  Readable file = (r : SandboxRecord) × (get_record parses {E = Fault} id file ≡ ok (some r))

  held_id :
      (file : StateFile) (r : SandboxRecord)
      → get_record parses {E = Fault} id file ≡ ok (some r)
      → r.id ≡ id
  held_id file r held =
      let (records, loaded, found) = get_record-eq-some parses Fault id file r held in
      sym (get-AreKeyed parses records id r (read-AreKeyed parses file records loaded).0 found).0

  -- For every update whose mutate keeps the id, and other writers that keep the record readable: if
  -- they are still in one of the attempts, the update does not run out of attempts with a conflict.
  pub update_settles :
      (attempts calm : ℕ) (file : StateFile)
      → ((r c : SandboxRecord) → r.id ≡ id → mutate r ≡ ok c → c.id ≡ id)
      → ((n : ℕ) (f : StateFile) → Readable f → Readable (world n f))
      → ((f : StateFile) → world calm f ≡ f)
      → calm < attempts
      → Readable file
      → (update attempts file).0 ≢ err state_conflict
  unfolding update after_get
  update_settles zero calm file keeps readable still early found = absurd (omega arith)
  update_settles (suc n) calm file keeps readable still early (r, held) = rw held (
      after_swap_retries (update n (world n file)) (world n file)
        (compare_and_swap parses id r.revision mutate now (world n file))
        (elim (Bool-cases (nat_beq calm n)) [
          | inl last ↦ inr (
              subst (λ f. compare_and_swap parses id r.revision mutate now f ≢ err state_conflict)
                (sym (ap (λ k. world k file) (sym ((nat_beq_iff calm n).0 last)) ∙ still file))
                (compare_and_swap_fresh parses Fault id mutate now file r held
                  (λ c updated. keeps r c (held_id file r held) updated)))
          | inr later ↦ inl (
              update_settles n calm (world n file) keeps readable still
                (ground (arith, later, early)) (readable n file (r, held)))
        ]))
