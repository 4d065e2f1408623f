-- ===== src/OwnershipProtocol/Frame/RoundTrip.antt =====
-- Writing and reading of framed messages fit together, and nothing beyond the limit passes either way.
use mathlib.Core.List.{flatten}
use worktree_gc.Base.{
  ℕ, ◌+◌, ◌/◌, ◌%◌, ◌≤◌, ◌<◌, ◌≡◌, refl, ap, sym, ◌∙◌, List, [], ◌∷◌, ◌++◌, some, arith, length,
  length-append, take, drop, take-append-drop, take-length-append, drop-length-append,
  length-take_of_le, ok, context, >>=-eq-ok, ◌↔◌, le→leb, le→ltb, leb, ltb, context-eq-ok, leb→le,
  ltb-false→le, ok-injective, if-eq-ok, if-not-ok,
}
use worktree_gc.OwnershipProtocol.Frame.{
  Json, IsJson, max_protocol_message_bytes, usize_mod, serialize_message_with_limit, write_chunks,
  write_chunks_fits, write_chunks-eq-ok, write_message, read_message, read_payload, read_exact,
  to_be_bytes, from_be_bytes, serialize_failed, frame_too_large, malformed,
}

module _ {T : Type 0} (json : Json T) where
  -- With a limit that a `usize` holds, the serialised payload is all that the serialiser wrote, and
  -- serialising succeeds exactly when that fits the limit.
  pub serialize_iff :
      (message : T) (limit : ℕ) (payload : List ℕ)
      → limit < usize_mod
      → (serialize_message_with_limit json message limit ≡ ok payload) ↔ (
          (chunks : List (List ℕ)) × (json.to_chunks message ≡ some chunks)
          × (payload ≡ flatten chunks)
          × (length payload ≤ limit))
  unfolding serialize_message_with_limit
  serialize_iff message limit payload l = (
    λ h.
        let (chunks, e, h1) = >>=-eq-ok (context (json.to_chunks message) serialize_failed) _ h in
        let (next, written, h2) = >>=-eq-ok (write_chunks _ chunks) _ h1 in
        let (whole, fits) = write_chunks-eq-ok _ next chunks (omega arith) written in
        let same : next.bytes ≡ payload = cc in
        (chunks, context-eq-ok _ _ e, sym same ∙ whole, rw (← same) fits),
    λ (chunks, e, same, fits).
        let f : length (flatten chunks) ≤ limit = rw (← same) fits in
        rw (e, write_chunks_fits (record { bytes = []; limit = limit }) chunks l f, same),
  )

  read_payload-append :
      (message : T) (payload rest : List ℕ)
      → length payload ≤ max_protocol_message_bytes
      → json.from_slice payload ≡ some message
      → read_payload json (length payload) (payload ++ rest) ≡ ok (message, rest)
  unfolding read_payload read_exact
  read_payload-append message payload rest fits parsed = rw (
    le→ltb max_protocol_message_bytes (length payload) fits,
    le→leb (length payload) (length (payload ++ rest)) (omega (arith, length-append payload rest)),
    take-length-append payload rest,
    drop-length-append payload rest,
    parsed,
  )

  -- A written frame stands behind what the stream held, takes at most the limit and four bytes, and
  -- reading it gives the message and leaves what follows it.
  pub read-write :
      IsJson json
      → (writer out : List ℕ) (message : T) → write_message json writer message ≡ ok out
      → (frame : List ℕ) × (out ≡ writer ++ frame)
        × (length frame ≤ max_protocol_message_bytes + 4)
        × ((rest : List ℕ) → read_message json (frame ++ rest) ≡ ok (message, rest))
  unfolding write_message read_message
  read-write laws writer out message h =
      let (payload, written, h1) =
        >>=-eq-ok (serialize_message_with_limit json message max_protocol_message_bytes) _ h in
      let (chunks, e, same, fits) =
        (serialize_iff message max_protocol_message_bytes payload (omega arith)).0 written in
      let parsed : json.from_slice payload ≡ some message =
        rw same (laws.from_slice-to_chunks message chunks e) in
      let (_, h2) = if-eq-ok (ltb (length payload) 4_294_967_296) _ _ h1 in
      let done = ok-injective h2 in
      let n = length payload in
      let size : from_be_bytes (n / 16_777_216 % 256) (n / 65_536 % 256) (n / 256 % 256) (n % 256)
          ≡ n =
        omega arith in
      (
        to_be_bytes n ++ payload,
        sym done,
        omega arith,
        λ rest. rw size (read_payload-append message payload rest fits parsed),
      )

  -- A message that is read came from a payload within the limit that stands in the stream behind four
  -- bytes, and the rest of the stream is what follows that payload.
  pub read_message_bounded :
      (stream rest : List ℕ) (message : T)
      → read_message json stream ≡ ok (message, rest)
      → (head payload : List ℕ) × (stream ≡ head ++ (payload ++ rest))
        × (length head ≡ 4)
        × (length payload ≤ max_protocol_message_bytes)
        × (json.from_slice payload ≡ some message)
  unfolding read_message read_payload read_exact
  read_message_bounded (a ∷ b ∷ c ∷ d ∷ reader) rest message h =
      let size = from_be_bytes a b c d in
      let (small, h1) = if-not-ok (ltb max_protocol_message_bytes size) _ frame_too_large h in
      let (parts, got, h2) = >>=-eq-ok (read_exact size reader) _ h1 in
      let (enough, h3) = if-eq-ok (leb size (length reader)) _ _ got in
      let (parsed, e, h4) = >>=-eq-ok (context (json.from_slice parts.0) malformed) _ h2 in
      let cut : (take size reader, drop size reader) ≡ parts = ok-injective h3 in
      let result : (parsed, parts.1) ≡ (message, rest) = ok-injective h4 in
      let ek : take size reader ≡ parts.0 = ap (λ p. p.0) cut in
      let er : drop size reader ≡ rest = ap (λ p. p.1) cut ∙ ap (λ p. p.1) result in
      let em : parsed ≡ message = ap (λ p. p.0) result in
      (
        a ∷ b ∷ c ∷ d ∷ [],
        take size reader,
        ap (λ t. a ∷ b ∷ c ∷ d ∷ t)
            (sym (take-append-drop size reader) ∙ ap (λ t. take size reader ++ t) er),
        refl,
        omega (
          arith,
          length-take_of_le size reader (leb→le _ _ enough),
          ltb-false→le max_protocol_message_bytes size small,
        ),
        rw ek (context-eq-ok (json.from_slice parts.0) malformed e ∙ ap some em),
      )
  read_message_bounded stream rest message h = cc
