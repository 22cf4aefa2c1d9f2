-- ===== src/State/Validation/Sound.antt =====
-- `validateSandboxRecord` of src/state/model.ts accepts nothing but valid records, and returns them
-- as they are: the artifact, the ports and the resources.
use studiobox.Common.{ℕ, ◌≡◌, refl, ap, subst, ◌∙◌, Bool, true, false, List, [], ◌∷◌, map, member}
use studiobox.Common.Codes.{codes_eq}
use studiobox.Common.Results.{ok, >>=-returned, throw_if}
use studiobox.State.Values.{
  TypeError, type_error, text, object, array, assert_record, assert_keys, assert_array,
  assert_unsigned_integer, optional,
}
use studiobox.State.Grammar.{is_sha256_hex, assert_matches, assert_arch}
use studiobox.State.Validation.{
  validate_artifact_reference, validate_port, validate_ports, path_text, uint32, validate_resources,
}
use studiobox.State.Validation.Valid.{
  IfPresent, AllOf, IsPath, Within, IsPort, AreUnseen, AreResources, IsArtifact, if_text, if_number,
  raw_port, raw_resources, raw_artifact,
}
use studiobox.State.Validation.Exact.{
  Exactly, ok_injective, assert_record_exact, assert_array_exact, assert_keys_exact,
  assert_unsigned_integer_exact, assert_text_exact, optional_exact, assert_matches_exact,
  assert_arch_exact,
}

pub validate_artifact_reference_exact : Exactly validate_artifact_reference raw_artifact IsArtifact
unfolding validate_artifact_reference raw_artifact
validate_artifact_reference_exact raw a h = >>=-returned (assert_keys raw.unknown) _ h λ u keys h1.
    >>=-returned (assert_matches is_sha256_hex raw.manifest_hash) _ h1 λ hash e2 h2.
      >>=-returned (assert_arch raw.arch) _ h2 λ arch e3 last.
        let hash_exact = assert_matches_exact is_sha256_hex raw.manifest_hash hash e2 in
        subst (λ a. (raw ≡ raw_artifact a) × IsArtifact a) (ok_injective last)
          (
            λ i. record {
              unknown = assert_keys_exact raw.unknown u keys i;
              manifest_hash = hash_exact.0 i;
              arch = assert_arch_exact raw.arch arch e3 i;
            },
            hash_exact.1,
          )

validate_port_exact : Exactly validate_port raw_port IsPort
unfolding validate_port
validate_port_exact entry p h = >>=-returned (assert_record entry) _ h λ port e1 h1.
    >>=-returned (assert_keys port.unknown) _ h1 λ u e2 h2.
      >>=-returned (assert_unsigned_integer 40_199 40_100 port.host_port) _ h2 λ host e3 h3.
        >>=-returned (assert_unsigned_integer 65_535 1 port.guest_port) _ h3 λ guest e4 last.
          let host_exact = assert_unsigned_integer_exact 40_199 40_100 port.host_port host e3 in
          let guest_exact = assert_unsigned_integer_exact 65_535 1 port.guest_port guest e4 in
          subst (λ p. (entry ≡ raw_port p) × IsPort p) (ok_injective last)
            (
              assert_record_exact entry port e1 ∙ λ i. object (record {
                unknown = assert_keys_exact port.unknown u e2 i;
                host_port = host_exact.0 i;
                guest_port = guest_exact.0 i;
              }),
              (host_exact.1, guest_exact.1),
            )

pub throw_if_exact : (b : Bool) (e : TypeError) (u : Unit {0}) → throw_if b e ≡ ok u → b ≡ false
throw_if_exact false e u h = refl
throw_if_exact true e u h = cc

validate_ports_exact :
    (seen : List ℕ)
    → Exactly (validate_ports seen) (map raw_port) (λ ps. AllOf IsPort ps × AreUnseen seen ps)
unfolding validate_ports
validate_ports_exact seen [] ps h =
    subst (λ ps. ([] ≡ map raw_port ps) × (AllOf IsPort ps × AreUnseen seen ps)) (ok_injective h)
      (refl, (tt, tt))
validate_ports_exact seen (entry ∷ entries) ps h =
    >>=-returned (validate_port entry) _ h λ port e1 h1.
      >>=-returned (throw_if (member port.host_port seen) type_error) _ h1 λ u e2 h2.
        >>=-returned (validate_ports (port.host_port ∷ seen) entries) _ h2 λ ports e3 last.
          let first = validate_port_exact entry port e1 in
          let rest = validate_ports_exact (port.host_port ∷ seen) entries ports e3 in
          subst (λ ps. (entry ∷ entries ≡ map raw_port ps) × (AllOf IsPort ps × AreUnseen seen ps))
            (ok_injective last)
            (
              λ i. first.0 i ∷ rest.0 i,
              ((first.1, rest.1.0), (throw_if_exact _ type_error u e2, rest.1.1)),
            )

pub IsPath-exact : Exactly (optional path_text) if_text (IfPresent IsPath)
IsPath-exact = optional_exact path_text text IsPath (assert_text_exact 4_096)

uint32_exact : Exactly (optional uint32) if_number (IfPresent (Within 0 0xffff_ffff))
uint32_exact = optional_exact uint32 _ _ (assert_unsigned_integer_exact 0xffff_ffff 0)

pub validate_resources_exact : Exactly validate_resources raw_resources AreResources
unfolding validate_resources raw_resources
validate_resources_exact raw r h = >>=-returned (assert_keys raw.unknown) _ h λ u e0 h0.
    >>=-returned (optional uint32 raw.uid) _ h0 λ uid e1 h1.
      >>=-returned (optional uint32 raw.gid) _ h1 λ gid e2 h2.
        >>=-returned (optional path_text raw.overlay_path) _ h2 λ overlay_path e3 h3.
          >>=-returned (optional path_text raw.tap_name) _ h3 λ tap_name e4 h4.
            >>=-returned (optional path_text raw.netns_path) _ h4 λ netns_path e5 h5.
              >>=-returned (optional path_text raw.host_ip) _ h5 λ host_ip e6 h6.
                >>=-returned (optional path_text raw.guest_ip) _ h6 λ guest_ip e7 h7.
                  >>=-returned (optional path_text raw.subnet) _ h7 λ subnet e8 h8.
                    >>=-returned (optional path_text raw.dnsmasq_pidfile) _ h8
                      λ dnsmasq_pidfile e9 h9.
                        >>=-returned (assert_array raw.exposed_ports) _ h9 λ entries e10 h10.
                          >>=-returned (validate_ports [] entries) _ h10 λ ports e11 last.
                            let x1 = uint32_exact raw.uid uid e1 in
                            let x2 = uint32_exact raw.gid gid e2 in
                            let x3 = IsPath-exact raw.overlay_path overlay_path e3 in
                            let x4 = IsPath-exact raw.tap_name tap_name e4 in
                            let x5 = IsPath-exact raw.netns_path netns_path e5 in
                            let x6 = IsPath-exact raw.host_ip host_ip e6 in
                            let x7 = IsPath-exact raw.guest_ip guest_ip e7 in
                            let x8 = IsPath-exact raw.subnet subnet e8 in
                            let x9 = IsPath-exact raw.dnsmasq_pidfile dnsmasq_pidfile e9 in
                            let x11 = validate_ports_exact [] entries ports e11 in
                            let written =
                              assert_array_exact raw.exposed_ports entries e10 ∙ ap array x11.0 in
                            subst (λ r. (raw ≡ raw_resources r) × AreResources r)
                              (ok_injective last)
                              (
                                λ i. record {
                                  unknown = assert_keys_exact raw.unknown u e0 i;
                                  uid = x1.0 i;
                                  gid = x2.0 i;
                                  overlay_path = x3.0 i;
                                  tap_name = x4.0 i;
                                  netns_path = x5.0 i;
                                  host_ip = x6.0 i;
                                  guest_ip = x7.0 i;
                                  subnet = x8.0 i;
                                  dnsmasq_pidfile = x9.0 i;
                                  exposed_ports = written i;
                                },
                                record {
                                  uid = x1.1;
                                  gid = x2.1;
                                  overlay_path = x3.1;
                                  tap_name = x4.1;
                                  netns_path = x5.1;
                                  host_ip = x6.1;
                                  guest_ip = x7.1;
                                  subnet = x8.1;
                                  dnsmasq_pidfile = x9.1;
                                  ports = x11.1.0;
                                  unseen = x11.1.1;
                                },
                              )
