-- ===== src/Examples/Captures.antt =====
-- The theorems about process ownership at a concrete capture: a helper for one root, under which one
-- process has a file open.
use worktree_gc.Base.{
  zero, suc, if◌then◌else◌, subst, Bool-cases, inl, inr, some-eq-some, none≢some, All, arith, ℕ,
  ◌+◌, ◌≡◌, refl, Bool, true, false, not, ◌&&◌, List, [], ◌∷◌, Option, some, none, any, chunks,
  length, Result, ok, err,
}
use worktree_gc.FilePath.{FilePath, path_eq, starts_with, has_ancestor, ancestor_spelling}
use worktree_gc.OwnershipProtocol.Hex.{IsBytes}
use worktree_gc.OwnershipProtocol.Wire.{
  OwnershipError, OwnershipResponse, from_path, new_request, max_request_roots, unreachable_helper,
  batch_failed,
}
use worktree_gc.Ownership.{
  RawProcessOwnershipObservation, RawOwnershipCapture, open_file, privileged_helper, global_lsof,
  match_process_ownership, process_ownership_evidence_from_raw,
}
use worktree_gc.Ownership.Response.{validate_response}
use worktree_gc.Ownership.Client.{
  BatchState, take_batches, capture_privileged_helper_raw_with,
  incomplete_privileged_helper_capture,
}
use worktree_gc.Ownership.Backend.{process_ownership_evidence_macos}
use worktree_gc.Ownership.Helper.{
  HelperConfig, RootHost, answer_roots, handle_connection, serve_batch,
}
use worktree_gc.Ownership.Matching.{fresh_ownership_allows_removal_iff, any-match_process_ownership}
use worktree_gc.Ownership.Refinement.{process_ownership_evidence_macos-refines}
use worktree_gc.Ownership.Acceptable.{ResolvesToBytes}
use worktree_gc.Ownership.Acceptance.{handle_connection-accepted}
use worktree_gc.Ownership.Failure.{capture_privileged_helper_raw_with-failed}
use worktree_gc.Worktree.Revalidation.{fresh_ownership_allows_removal}

abbrev asked : FilePath
asked = record { bytes = b'/' ∷ b'a' ∷ [] }

abbrev beside : FilePath
beside = record { bytes = b'/' ∷ b'b' ∷ [] }

abbrev opened : FilePath
opened = record { bytes = b'/' ∷ b'a' ∷ b'/' ∷ b'x' ∷ [] }

abbrev observation : RawProcessOwnershipObservation
observation = record { pid = 7; command = none; evidence_kind = open_file; observed_path = opened }

abbrev lsof : RawOwnershipCapture
lsof = record {
  backend = "lsof_global";
  protocol_version = none;
  helper_build_sha256 = none;
  complete = true;
  error = none;
  observations = observation ∷ [];
}

abbrev roots_host : RootHost
roots_host = record {
  canonicalize = λ path.
      if path_eq path asked then some asked else if path_eq path beside then some beside else none;
  is_dir = λ _. true;
}

asked_bytes : IsBytes asked.bytes
asked_bytes = (omega arith, (omega arith, tt))

beside_bytes : IsBytes beside.bytes
beside_bytes = (omega arith, (omega arith, tt))

roots_host_resolves : ResolvesToBytes roots_host
roots_host_resolves path canonical h = elim (Bool-cases (path_eq path asked)) [
  | inl e ↦
      subst (λ p. IsBytes p.bytes)
        (some-eq-some (
          subst
            (λ b.
              (if b then some asked else if path_eq path beside then some beside else none)
              ≡ some canonical)
            e h))
        asked_bytes
  | inr e ↦ elim (Bool-cases (path_eq path beside)) [
    | inl f ↦
        subst (λ p. IsBytes p.bytes)
          (some-eq-some (
            subst (λ b. (if b then some beside else none) ≡ some canonical) f
              (subst
                (λ b.
                  (if b then some asked else if path_eq path beside then some beside else none)
                  ≡ some canonical)
                e h)))
          beside_bytes
    | inr f ↦ absurd (
        none≢some (
          subst (λ b. (if b then some beside else none) ≡ some canonical) f
            (subst
              (λ b.
                (if b then some asked else if path_eq path beside then some beside else none)
                ≡ some canonical)
              e h)))
  ]
]

abbrev config : HelperConfig
config = record {
  config_version = 1;
  allowed_uid = 501;
  allowed_gid = 20;
  roots = from_path asked ∷ from_path beside ∷ [];
}

abbrev zeros : ℕ → List ℕ
zeros zero = []
zeros (suc n) = b'0' ∷ zeros n

abbrev build : List ℕ
build = zeros 64

observed_bytes : All (λ o. IsBytes o.observed_path.bytes) lsof.observations
observed_bytes = ((omega arith, (omega arith, (omega arith, (omega arith, tt)))), tt)

fresh_ownership_allows_removal_iff_example :
    fresh_ownership_allows_removal (process_ownership_evidence_from_raw (asked ∷ []) 3 lsof)
    ≡ (true && not (any (λ o. has_ancestor o.observed_path asked) (observation ∷ [])))
fresh_ownership_allows_removal_iff_example = fresh_ownership_allows_removal_iff asked 3 lsof

any-match_process_ownership_example :
    any (λ _. true) (match_process_ownership (asked ∷ []) (observation ∷ []))
    ≡ any (λ o. any (λ q. has_ancestor o.observed_path q && true) (asked ∷ [])) (observation ∷ [])
any-match_process_ownership_example =
    any-match_process_ownership (λ _. true) (λ _ _ _. refl) (asked ∷ []) (observation ∷ [])

process_ownership_evidence_macos-refines_example :
    (any
        (λ m. path_eq m.matched_path asked)
        (process_ownership_evidence_macos
          (asked ∷ [])
          privileged_helper
          3
          lsof
          (serve_batch roots_host config build lsof 501 (λ _. 5))
          lsof).observations
      ≡ any
          (λ m. path_eq m.matched_path asked)
          (process_ownership_evidence_macos
            (asked ∷ [])
            global_lsof
            3
            lsof
            (serve_batch roots_host config build lsof 501 (λ _. 5))
            lsof).observations)
    × ((process_ownership_evidence_macos
          (asked ∷ [])
          global_lsof
          3
          lsof
          (serve_batch roots_host config build lsof 501 (λ _. 5))
          lsof).complete
        ≡ true)
unfolding worktree_gc.Ownership.process_ownership_evidence_from_raw
    worktree_gc.Ownership.match_process_ownership worktree_gc.Ownership.dedup_matches
    worktree_gc.Ownership.dedup_from worktree_gc.Ownership.all_matches
    worktree_gc.Ownership.matches_of worktree_gc.Ownership.distinct_paths
    worktree_gc.Ownership.match_leb worktree_gc.Ownership.match_beq
    worktree_gc.Ownership.Backend.resolve_macos_backend
    worktree_gc.Ownership.Backend.process_ownership_evidence_macos
    worktree_gc.Ownership.Client.capture_privileged_helper_raw_with
    worktree_gc.Ownership.Client.capture_of_run worktree_gc.Ownership.Client.take_batches
    worktree_gc.Ownership.Client.take_batch worktree_gc.Ownership.Client.ask_batch
    worktree_gc.Ownership.Client.add_unseen
    worktree_gc.Ownership.Client.privileged_helper_response_to_raw
    worktree_gc.Ownership.Client.helper_observations_to_raw
    worktree_gc.Ownership.Client.helper_observation_to_raw worktree_gc.Ownership.Client.raw_beq
    worktree_gc.Ownership.Helper.serve_batch worktree_gc.Ownership.Helper.capture_from_helper
    worktree_gc.Ownership.Helper.handle_connection worktree_gc.Ownership.Helper.answer_roots
    worktree_gc.Ownership.Helper.privileged_response_from_capture
    worktree_gc.Ownership.Helper.push_observations worktree_gc.Ownership.Helper.push_matches
    worktree_gc.Ownership.Helper.matching_roots worktree_gc.Ownership.Helper.wire_kind
    worktree_gc.Ownership.Helper.validated_request_roots worktree_gc.Ownership.Helper.allowed_roots
    worktree_gc.Ownership.Helper.canonical_root worktree_gc.Ownership.Helper.canonical_config_roots
    worktree_gc.Ownership.Helper.config_roots worktree_gc.Ownership.Response.validate_response
    worktree_gc.Ownership.Response.validate_complete
    worktree_gc.Ownership.Response.validate_evidence
    worktree_gc.Ownership.Response.validate_observations worktree_gc.Ownership.Response.dedup_paths
    worktree_gc.Ownership.Response.dedup_paths_from
    worktree_gc.Ownership.Response.is_lower_hex_sha256
    worktree_gc.OwnershipProtocol.Wire.new_request worktree_gc.OwnershipProtocol.Wire.from_path
    worktree_gc.OwnershipProtocol.Wire.to_path_buf worktree_gc.OwnershipProtocol.Wire.to_path_bufs
    worktree_gc.OwnershipProtocol.Hex.encode_hex worktree_gc.OwnershipProtocol.Hex.decode_hex
    worktree_gc.OwnershipProtocol.Hex.hex_digit worktree_gc.FilePath.starts_with
    worktree_gc.FilePath.has_ancestor worktree_gc.FilePath.ancestor_spelling
    worktree_gc.FilePath.path_eq worktree_gc.FilePath.components worktree_gc.FilePath.path_leb
    worktree_gc.FilePath.is_absolute worktree_gc.FilePath.split_separator
    worktree_gc.FilePath.piece_components worktree_gc.Base.chunks worktree_gc.Base.sort_by
    worktree_gc.Base.insert_by worktree_gc.Worktree.Revalidation.fresh_ownership_allows_removal
process_ownership_evidence_macos-refines_example =
    process_ownership_evidence_macos-refines roots_host config build lsof observed_bytes 501
      (λ _. 5) 3 lsof asked [] (asked_bytes, tt) asked refl

handle_connection-accepted_example :
    validate_response
      (new_request 5 (asked ∷ []))
      (answer_roots config 5 build lsof (ok (asked ∷ [])))
    ≡ ok tt
unfolding worktree_gc.Ownership.Response.is_lower_hex_sha256
    worktree_gc.Ownership.Helper.privileged_response_from_capture
    worktree_gc.Ownership.Helper.validated_request_roots starts_with has_ancestor ancestor_spelling
    new_request worktree_gc.FilePath.components worktree_gc.Ownership.Helper.canonical_config_roots
    worktree_gc.Ownership.Helper.wire_kind worktree_gc.OwnershipProtocol.Wire.to_path_buf
    worktree_gc.OwnershipProtocol.Hex.decode_hex from_path
    worktree_gc.OwnershipProtocol.Hex.encode_hex path_eq worktree_gc.Ownership.Response.dedup_paths
    worktree_gc.Base.sort_by worktree_gc.FilePath.path_leb
handle_connection-accepted_example =
    handle_connection-accepted roots_host config build lsof roots_host_resolves observed_bytes refl
      5 asked [] (asked_bytes, tt) 501 (answer_roots config 5 build lsof (ok (asked ∷ [])))
      (unfold handle_connection in refl)

-- The exchange about the only batch fails.
capture_privileged_helper_raw_with-failed_example :
    capture_privileged_helper_raw_with (λ _. err unreachable_helper) (asked ∷ [])
    ≡ incomplete_privileged_helper_capture (batch_failed 1 1 unreachable_helper)
unfolding chunks
capture_privileged_helper_raw_with-failed_example =
    capture_privileged_helper_raw_with-failed (λ _. err unreachable_helper) (asked ∷ []) []
      (asked ∷ []) []
      (record { protocol_version = none; helper_build_sha256 = none; observations = [] })
      unreachable_helper (unfold chunks in refl) (unfold take_batches in refl) refl
