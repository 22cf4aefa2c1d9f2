-- ===== src/State/NewRecord.antt =====
-- `newSandboxRecord` of src/state/model.ts, and its way into the store.
use studiobox.Common.{◌≡◌, refl, ap, subst, ◌∙◌, Option, none, some, Bool, not, [], arith}
use studiobox.Common.Codes.{codes_eq, codes_beq_iff}
use studiobox.Common.Results.{ok, ◌>>=◌, ◌>>◌, throw_if, >>=-returned}
use studiobox.Common.JsNumber.{JsNumber, nat}
use studiobox.State.Model.{Text, allocating, version_2, SandboxRecord}
use studiobox.State.Values.{
  type_error, number, text, Checked, assert_non_negative_integer, assert_timestamp,
}
use studiobox.State.Grammar.{is_sandbox_id}
use studiobox.State.Validation.Valid.{IsRecord}
use studiobox.State.Validation.Exact.{ok_injective, assert_non_negative_integer_exact}
use studiobox.State.Validation.Journal.{assert_timestamp_exact}
use studiobox.State.Store.{StateFile, create, get_record}
use studiobox.State.Store.Read.{guard-eq-ok}
use studiobox.State.Store.Spec.{Registry, put, Shows, apply}
use studiobox.State.Store.Progress.{Step-create}

-- `value ?? standard`
unfoldable pub or_else {ℓ} : {A : Type ℓ} → Option A → A → A
or_else none standard = standard
or_else (some a) standard = a

module _ (parses : Text → Bool) where
  -- `now` is `new Date().toISOString()`.
  unfoldable pub new_sandbox_record :
      Text → Text → Option Text → Option JsNumber → Checked SandboxRecord
  unfolding or_else
  new_sandbox_record now id created_at generation = do
    throw_if (not (is_sandbox_id id)) type_error
    timestamp ← assert_timestamp parses (text (or_else created_at now))
    checked ← assert_non_negative_integer (number (or_else generation (nat 0)))
    ok (record {
      schema_version = version_2;
      id = id;
      revision = 0;
      generation = checked;
      phase = allocating;
      created_at = timestamp;
      updated_at = timestamp;
      machine = none;
      artifact = none;
      template_pinned = none;
      resources = record {
        uid = none;
        gid = none;
        overlay_path = none;
        tap_name = none;
        netns_path = none;
        host_ip = none;
        guest_ip = none;
        subnet = none;
        dnsmasq_pidfile = none;
        exposed_ports = [];
      };
      termination_reason = none;
    })

  new_sandbox_record-IsRecord :
      (now id : Text) (created_at : Option Text) (generation : Option JsNumber) (r : SandboxRecord)
      → new_sandbox_record now id created_at generation ≡ ok r
      → IsRecord parses r × (r.id ≡ id) × (r.revision ≡ 0)
  unfolding new_sandbox_record
  new_sandbox_record-IsRecord now id created_at generation r h =
      >>=-returned (throw_if (not (is_sandbox_id id)) type_error) _ h λ u e1 h1.
        >>=-returned (assert_timestamp parses (text (or_else created_at now))) _ h1 λ t e2 h2.
          >>=-returned (assert_non_negative_integer (number (or_else generation (nat 0)))) _ h2
            λ g e3 last.
              let stamp = (assert_timestamp_exact parses _ t e2).1 in
              let bound = (assert_non_negative_integer_exact _ g e3).1 in
              subst (λ r. IsRecord parses r × (r.id ≡ id) × (r.revision ≡ 0)) (ok_injective last)
                (
                  record {
                    id = guard-eq-ok _ type_error u e1;
                    revision = omega arith;
                    generation = bound;
                    created_at = stamp;
                    updated_at = stamp;
                    termination_reason = tt;
                    resources = record {
                      uid = tt;
                      gid = tt;
                      overlay_path = tt;
                      tap_name = tt;
                      netns_path = tt;
                      host_ip = tt;
                      guest_ip = tt;
                      subnet = tt;
                      dnsmasq_pidfile = tt;
                      ports = tt;
                      unseen = tt;
                    };
                    machine = tt;
                    artifact = tt;
                    artifact_version = tt;
                    pin_version = tt;
                  },
                  refl,
                  refl,
                )

  -- For every file that can be read and has no record under an id: a record that newSandboxRecord
  -- makes for this id is valid, and create stores it, so that get returns it from the new file.
  pub new_sandbox_record-create :
      (E : Type 0) (now id : Text) (created_at : Option Text) (generation : Option JsNumber)
      (r : SandboxRecord) (file : StateFile) (m : Registry)
      → new_sandbox_record now id created_at generation ≡ ok r
      → Shows parses E file m
      → m id ≡ none
      → (next : StateFile) × (create parses {E = E} r file ≡ ok next)
        × (get_record parses {E = E} id next ≡ ok (some r))
  unfolding get_record apply
  new_sandbox_record-create E now id created_at generation r file m made shows absent =
      let (valid, own, zero) = new_sandbox_record-IsRecord now id created_at generation r made in
      let (next, done, (records, e, g)) =
        Step-create parses E r file m (put r.id (some r) m) shows (ap m own ∙ absent) valid zero
          (λ j. refl) in
      (next, done, rw e (ap ok (g id ∙ ground (arith, codes_beq_iff r.id id, own))))
