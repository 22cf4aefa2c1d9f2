-- ===== src/Rootd/Supervisor/Bridges/Once.antt =====
-- A bridge grant of src/rootd/supervisor_core.ts is taken at most once, in time, and never after its
-- execution has ended.
use studiobox.Common.{
  ℕ, ◌<◌, ◌≡◌, refl, sym, ap, subst, ◌∙◌, Option, none, some, Bool, true, false, List, [], ◌∷◌,
  ◌++◌, not, arith, Bool-cases, inl, inr, ◌==◌,
}
use studiobox.Common.Codes.{codes_eq, codes_beq_iff}
use studiobox.Common.Map.{
  get, set, reject, Distinct, get-set, get-reject, set-Distinct, reject-Distinct, unless,
}
use studiobox.Common.Results.{err, ok, ◌>>=◌, >>=-returned, or_throw, or_throw-eq-ok, throw_if}
use studiobox.State.Model.{Text, SandboxRecord}
use studiobox.State.Store.Read.{ok_injective}
use studiobox.Rootd.Supervisor.Journal.{Fault, sup_not_found, sup_state}
use studiobox.Wire.Supervisor.{
  Accepted, RawBridgeRequest, BridgeRequest, BridgeGrant, bridge_socket_root,
  validate_bridge_request, validate_bridge_socket_path, validate_bridge_grant, assert_pattern,
  assert_byte_range, assert_expiry,
}
use studiobox.State.Grammar.{is_execution_id}
use studiobox.Rootd.Supervisor.Bridges.{
  BridgeGrantEntry, SupervisorCore, Answer, is_expired, purge_expired_bridges, revoke_bridges,
  reject_during_reconcile, or_validation, or_wire, find_execution, require_ready_and_live,
  bridge_id_of, add_bridge, make_grant, open_bridge, consume, take_bridge_grant, forget_all,
  forget_execution,
}

-- What may happen to the grants. A sweep comes with the records that it found open: with none it
-- clears nothing, which is also what a sweep that throws does to the grants.
pub data Event : Type 0 where
  opening :
      ℕ
      → ℕ
      → Text
      → List ℕ
      → List ℕ
      → RawBridgeRequest
      → List SandboxRecord
      → SupervisorCore
      → Event
  taking : ℕ → Text → Event
  purging : ℕ → Event
  ending : Text → Event
  sweeping : (found : List SandboxRecord) → Event

-- A call that throws leaves the second core.
unfoldable pub left_by : Answer (BridgeGrant × SupervisorCore) → SupervisorCore → SupervisorCore
left_by (ok (grant, core)) standing = core
left_by (err fault) standing = standing

unfoldable pub happen : Event → SupervisorCore → SupervisorCore
unfolding left_by open_bridge take_bridge_grant forget_execution forget_all
happen (opening now later uuid credential drawn raw records entered) core =
    left_by (open_bridge now later uuid credential drawn raw records entered core) core
happen (taking now bridge_id) core =
    left_by (take_bridge_grant now bridge_id core) (purge_expired_bridges now core)
happen (purging now) core = purge_expired_bridges now core
happen (ending execution_id) core = forget_execution execution_id core
happen (sweeping []) core = core
happen (sweeping (r ∷ rs)) core = forget_all core

unfoldable pub happen_all : List Event → SupervisorCore → SupervisorCore
happen_all [] core = core
happen_all (e ∷ es) core = happen_all es (happen e core)

or_wire-eq-ok : (x : Accepted BridgeGrant) (made : BridgeGrant) → or_wire x ≡ ok made → x ≡ ok made
unfolding or_wire
or_wire-eq-ok (err e) made h = cc
or_wire-eq-ok (ok grant) made h = cc

-- Validation returns the grant that it is given.
validate_bridge_grant-same :
    (now : ℕ) (grant made : BridgeGrant)
    → or_wire (validate_bridge_grant now grant) ≡ ok made
    → grant ≡ made
unfolding validate_bridge_grant
validate_bridge_grant-same now grant made h =
    >>=-returned (assert_pattern is_execution_id grant.bridge_id) _ (or_wire-eq-ok _ made h)
      λ u1 e1 h1. >>=-returned (validate_bridge_socket_path grant.socket_path) _ h1 λ u2 e2 h2.
        >>=-returned (assert_byte_range 32 32 grant.bridge_credential) _ h2 λ u3 e3 h3.
          >>=-returned (assert_byte_range 32 512 grant.agent_credential) _ h3 λ u4 e4 h4.
            >>=-returned (assert_expiry now grant.expires_at) _ h4 λ u5 e5 last. ok_injective last

module _ (id : Text) where
  -- No later grant is drawn with this id.
  abbrev pub DrawsOther : Event → Type 0
  DrawsOther (opening now later uuid credential drawn raw records entered) =
      (bridge_id_of uuid == id) ≡ false
  DrawsOther (taking now bridge_id) = Unit {0}
  DrawsOther (purging now) = Unit {0}
  DrawsOther (ending execution_id) = Unit {0}
  DrawsOther (sweeping found) = Unit {0}

  abbrev pub AllDrawOther : List Event → Type 0
  AllDrawOther [] = Unit {0}
  AllDrawOther (e ∷ es) = DrawsOther e × AllDrawOther es

  -- A grant under this id, if there is one, was taken.
  abbrev IsSpent : SupervisorCore → Type 0
  IsSpent core =
      Distinct core.bridges
      × ((entry : BridgeGrantEntry) → get core.bridges id ≡ some entry → entry.consumed ≡ true)

  kept_entry :
      (p : BridgeGrantEntry → Bool) (o : Option BridgeGrantEntry) (entry : BridgeGrantEntry)
      → unless p o ≡ some entry
      → (o ≡ some entry) × (p entry ≡ false)
  kept_entry p none entry h = absurd (ground (arith, h))
  kept_entry p (some e) entry h = elim (Bool-cases (p e)) [
    | inl gone ↦ absurd (ground (arith, h, gone))
    | inr kept ↦
        let same : e ≡ entry = ground (arith, h, kept) in (ap some same, ap p (sym same) ∙ kept)
  ]

  reject-IsSpent :
      (p : BridgeGrantEntry → Bool) (core : SupervisorCore)
      → IsSpent core
      → IsSpent (record core { bridges = reject p core.bridges })
  reject-IsSpent p core (d, spent) = (
    reject-Distinct p core.bridges d,
    λ entry h.
        spent entry
          (kept_entry p (get core.bridges id) entry (sym (get-reject p core.bridges id d) ∙ h)).0,
  )

  set-IsSpent :
      (core : SupervisorCore) (bridge_id : Text) (new : BridgeGrantEntry)
      → ((bridge_id == id) ≡ true → new.consumed ≡ true)
      → IsSpent core
      → IsSpent (record core { bridges = set core.bridges bridge_id new })
  set-IsSpent core bridge_id new fine (d, spent) = (
    set-Distinct core.bridges bridge_id new d,
    λ entry h. elim (Bool-cases (bridge_id == id)) [
      | inl same ↦
          let e : new ≡ entry = ground (arith, get-set core.bridges bridge_id id new, h, same) in
          ap (λ (x : BridgeGrantEntry). x.consumed) (sym e) ∙ fine same
      | inr other ↦ spent entry (ground (arith, get-set core.bridges bridge_id id new, h, other))
    ],
  )

  left-IsSpent :
      (o : Answer (BridgeGrant × SupervisorCore)) (core : SupervisorCore)
      → ((grant : BridgeGrant) (next : SupervisorCore) → o ≡ ok (grant, next) → IsSpent next)
      → IsSpent core
      → IsSpent (left_by o core)
  unfolding left_by
  left-IsSpent (ok (grant, next)) core made h = made grant next refl
  left-IsSpent (err f) core made h = h

  add_bridge-IsSpent :
      (now : ℕ) (grant : BridgeGrant) (request : BridgeRequest) (core : SupervisorCore)
      → (grant.bridge_id == id) ≡ false
      → IsSpent core
      → IsSpent (add_bridge now grant request core)
  unfolding add_bridge
  add_bridge-IsSpent now grant request core apart h =
      set-IsSpent (purge_expired_bridges now core) grant.bridge_id _
        (λ same. absurd (ground (arith, same, apart))) (reject-IsSpent (is_expired now) core h)

  open-IsSpent :
      (now later : ℕ) (uuid : Text) (credential drawn : List ℕ) (raw : RawBridgeRequest)
      (records : List SandboxRecord) (entered core : SupervisorCore)
      → (bridge_id_of uuid == id) ≡ false
      → IsSpent core
      → (grant : BridgeGrant) (next : SupervisorCore)
      → open_bridge now later uuid credential drawn raw records entered core ≡ ok (grant, next)
      → IsSpent next
  unfolding open_bridge
  open-IsSpent now later uuid credential drawn raw records entered core apart spent grant next h =
      >>=-returned (reject_during_reconcile entered) _ h λ u1 e1 h1.
        >>=-returned (or_validation (validate_bridge_request now raw)) _ h1 λ request e2 h2.
          >>=-returned (find_execution request.execution_id records) _ h2 λ r e3 h3.
            >>=-returned (throw_if (not (r.id == request.sandbox_id)) sup_state) _ h3 λ u4 e4 h4.
              >>=-returned (require_ready_and_live r request.execution_id core) _ h4 λ u5 e5 h5.
                >>=-returned
                  (or_wire (validate_bridge_socket_path (bridge_socket_root ++ bridge_id_of uuid)))
                  _ h5
                  λ u6 e6 h6.
                    >>=-returned
                      (or_wire (
                        validate_bridge_grant now (
                          make_grant uuid credential drawn request.execution_id request.expires_at
                            core)))
                      _ h6
                      λ made e7 last.
                        let same : make_grant uuid credential drawn request.execution_id
                              request.expires_at core
                            ≡ made =
                          validate_bridge_grant-same now _ made e7 in
                        let named : (made.bridge_id == id) ≡ false =
                          ap (λ (g : BridgeGrant). g.bridge_id == id) (sym same) ∙ apart in
                        subst IsSpent
                          (ap (λ (p : BridgeGrant × SupervisorCore). p.1) (ok_injective last))
                          (add_bridge-IsSpent later made request core named spent)

  consume-IsSpent :
      (bridge_id : Text) (entry : BridgeGrantEntry) (core : SupervisorCore)
      → IsSpent core
      → IsSpent (left_by (consume bridge_id entry core) core)
  unfolding consume left_by
  consume-IsSpent bridge_id entry core h = elim (Bool-cases entry.consumed) [
    | inl twice ↦ rw twice h
    | inr once ↦
        rw once (set-IsSpent core bridge_id (record entry { consumed = true }) (λ same. refl) h)
  ]

  taken-IsSpent :
      (bridge_id : Text) (core : SupervisorCore) (o : Option BridgeGrantEntry)
      → IsSpent core
      → IsSpent (left_by (or_throw o sup_not_found >>= λ entry. consume bridge_id entry core) core)
  unfolding left_by
  taken-IsSpent bridge_id core none h = h
  taken-IsSpent bridge_id core (some entry) h = consume-IsSpent bridge_id entry core h

  happen-IsSpent :
      (e : Event) (core : SupervisorCore) → DrawsOther e → IsSpent core → IsSpent (happen e core)
  unfolding happen take_bridge_grant purge_expired_bridges forget_execution revoke_bridges
      forget_all get
  happen-IsSpent (opening now later uuid credential drawn raw records entered) core d h =
      left-IsSpent _ core
        (open-IsSpent now later uuid credential drawn raw records entered core d h) h
  happen-IsSpent (taking now bridge_id) core d h =
      taken-IsSpent bridge_id (purge_expired_bridges now core)
        (get (purge_expired_bridges now core).bridges bridge_id)
        (reject-IsSpent (is_expired now) core h)
  happen-IsSpent (purging now) core d h = reject-IsSpent (is_expired now) core h
  happen-IsSpent (ending execution_id) core d h =
      reject-IsSpent (λ entry. entry.execution_id == execution_id) core h
  happen-IsSpent (sweeping []) core d h = h
  happen-IsSpent (sweeping (r ∷ rs)) core d h = (tt, λ entry e. absurd (ground (arith, e)))

  happen_all-IsSpent :
      (es : List Event) (core : SupervisorCore)
      → AllDrawOther es
      → IsSpent core
      → IsSpent (happen_all es core)
  unfolding happen_all
  happen_all-IsSpent [] core d h = h
  happen_all-IsSpent (e ∷ es) core d h =
      happen_all-IsSpent es (happen e core) d.1 (happen-IsSpent e core d.0 h)

  abbrev pub IsRefused : ℕ → SupervisorCore → Type 0
  IsRefused now core = (f : Fault) × (take_bridge_grant now id core ≡ err f)

  spent_refused :
      (core : SupervisorCore) (o : Option BridgeGrantEntry)
      → ((entry : BridgeGrantEntry) → o ≡ some entry → entry.consumed ≡ true)
      → (f : Fault) × ((or_throw o sup_not_found >>= λ entry. consume id entry core) ≡ err f)
  unfolding consume
  spent_refused core none spent = (sup_not_found, refl)
  spent_refused core (some entry) spent = (sup_state, rw (spent entry refl) refl)

  IsSpent-IsRefused : (now : ℕ) (core : SupervisorCore) → IsSpent core → IsRefused now core
  unfolding take_bridge_grant purge_expired_bridges
  IsSpent-IsRefused now core h =
      spent_refused (purge_expired_bridges now core)
        (get (purge_expired_bridges now core).bridges id) (reject-IsSpent (is_expired now) core h).1

  consume-eq-ok :
      (entry : BridgeGrantEntry) (core after : SupervisorCore) (grant : BridgeGrant)
      → consume id entry core ≡ ok (grant, after)
      → (entry.consumed ≡ false)
        × (entry.grant ≡ grant)
        × (record core { bridges = set core.bridges id (record entry { consumed = true }) } ≡ after)
  unfolding consume
  consume-eq-ok entry core after grant h = elim (Bool-cases entry.consumed) [
    | inl twice ↦ absurd (ground (arith, h, twice))
    | inr once ↦
        let both = ok_injective (rw once at h) in
        (
          once,
          ap (λ (p : BridgeGrant × SupervisorCore). p.0) both,
          ap (λ (p : BridgeGrant × SupervisorCore). p.1) both,
        )
  ]

  -- For every supervisor and grant id, where a take succeeds: the grant stood there unconsumed and was
  -- not expired; and whatever happens then, opening, taking, purging, ending and sweeping, as long as
  -- no other grant is drawn with this id, every later take is refused.
  pub grant_taken_once :
      (now later : ℕ) (core after : SupervisorCore) (grant : BridgeGrant) (es : List Event)
      → Distinct core.bridges
      → take_bridge_grant now id core ≡ ok (grant, after)
      → AllDrawOther es
      → ((entry : BridgeGrantEntry) × (get core.bridges id ≡ some entry)
          × (entry.consumed ≡ false)
          × (entry.grant ≡ grant)
          × (now < grant.expires_at))
        × IsRefused later (happen_all es after)
  unfolding take_bridge_grant purge_expired_bridges is_expired
  grant_taken_once now later core after grant es d h others =
      >>=-returned (or_throw (get (purge_expired_bridges now core).bridges id) sup_not_found) _ h
        λ entry e last.
          let found =
            or_throw-eq-ok (get (purge_expired_bridges now core).bridges id) sup_not_found e in
          let (held, live) =
            kept_entry (is_expired now) (get core.bridges id) entry
              (sym (get-reject (is_expired now) core.bridges id d) ∙ found) in
          let (once, same, left) =
            consume-eq-ok entry (purge_expired_bridges now core) after grant last in
          let spent : IsSpent after = subst IsSpent left (
            set-Distinct (reject (is_expired now) core.bridges) id
                (record entry { consumed = true })
                (reject-Distinct (is_expired now) core.bridges d),
            λ x hx.
                let e : record entry { consumed = true } ≡ x = ground (
                  arith,
                  get-set (reject (is_expired now) core.bridges) id id
                      (record entry { consumed = true }),
                  hx,
                  codes_beq_iff id id,
                ) in
                ap (λ (x : BridgeGrantEntry). x.consumed) (sym e),
          ) in
          let timely : now < entry.grant.expires_at = ground (arith, live) in
          (
            (entry, held, once, same, subst (λ (g : BridgeGrant). now < g.expires_at) same timely),
            IsSpent-IsRefused later (happen_all es after)
                (happen_all-IsSpent es after others spent),
          )

  -- For every grant that stands: once its execution has ended, or a sweep has found an open record and
  -- returned, it is never taken, whatever happens later, as long as no other grant is drawn with its id.
  pub ended_grant-IsRefused :
      (later : ℕ) (core : SupervisorCore) (entry : BridgeGrantEntry) (es : List Event)
      (r : SandboxRecord) (rs : List SandboxRecord)
      → Distinct core.bridges
      → get core.bridges id ≡ some entry
      → AllDrawOther es
      → IsRefused later (happen_all es (happen (ending entry.execution_id) core))
        × IsRefused later (happen_all es (happen (sweeping (r ∷ rs)) core))
  unfolding happen forget_execution revoke_bridges forget_all get
  ended_grant-IsRefused later core entry es r rs d held others =
      let gone = λ (e : BridgeGrantEntry). e.execution_id == entry.execution_id in
      let ended : IsSpent (happen (ending entry.execution_id) core) = (
        reject-Distinct gone core.bridges d,
        λ x h.
            let kept =
              kept_entry gone (get core.bridges id) x
                (sym (get-reject gone core.bridges id d) ∙ h) in
            let same : entry ≡ x = ground (arith, held, kept.0) in
            absurd (
              ground (
                arith,
                kept.1,
                ap (λ (y : BridgeGrantEntry). gone y) same,
                codes_beq_iff entry.execution_id entry.execution_id,
              )),
      ) in
      let swept : IsSpent (happen (sweeping (r ∷ rs)) core) =
        (tt, λ x h. absurd (ground (arith, h))) in
      (
        IsSpent-IsRefused later _ (happen_all-IsSpent es _ others ended),
        IsSpent-IsRefused later _ (happen_all-IsSpent es _ others swept),
      )
