-- ===== src/OwnershipProtocol/Frame.antt =====
-- `BoundedPayload`, `serialize_message_with_limit`, `write_message` and `read_message` of
-- src/ownership_protocol.rs. A message is of any type that `serde_json` writes and reads: what it
-- hands to the writer, chunk by chunk, and what it reads back are the parameter `Json`. The stream is
-- the bytes that it holds, so its own I/O errors are not modelled, but its end is.
pub mod RoundTrip
use mathlib.Core.List.{flatten, append-nil, append_assoc}
use worktree_gc.Base.{
  ℕ, zero, suc, ◌+◌, ◌*◌, ◌/◌, ◌%◌, ◌^◌, ◌≤◌, ◌<◌, ◌≡◌, refl, ap, Bool, true, false, List, [], ◌∷◌,
  ◌++◌, Option, none, some, arith, leb, ltb, length, length-append, take, drop, if◌then◌else◌,
  Result, ok, err, context, ◌>>=◌, ◌>>◌, >>=-eq-ok, inl, inr, Bool-cases, lt→ltb, le→ltb, ◌∙◌, sym,
}

-- What `serde_json` gives: `to_writer` as the slices it passes to `write_all`, or its failure, and
-- `from_slice`.
pub record Json (T : Type 0) : Type 0 where
  pub to_chunks : T → Option (List (List ℕ))
  pub from_slice : List ℕ → Option T

-- What is documented of the two: reading what was written gives the message back.
pub record IsJson {T : Type 0} (json : Json T) : Type 0 where
  pub from_slice-to_chunks :
      (message : T) (chunks : List (List ℕ))
      → json.to_chunks message ≡ some chunks
      → json.from_slice (flatten chunks) ≡ some message

pub data FrameError : Type 0 where
  length_overflow payload_too_large serialize_failed exceeds_u32 : FrameError
  unexpected_eof frame_too_large malformed : FrameError

-- 64 * 1024 * 1024
abbrev pub max_protocol_message_bytes : ℕ
max_protocol_message_bytes = 67_108_864

abbrev pub usize_mod : ℕ
usize_mod = 18_446_744_073_709_551_616

pub record BoundedPayload : Type 0 where
  pub bytes : List ℕ
  pub limit : ℕ

unfoldable pub write : BoundedPayload → List ℕ → Result FrameError BoundedPayload
write payload chunk =
    let new_len = length payload.bytes + length chunk in
    if ltb new_len usize_mod
    then (if ltb payload.limit new_len
        then err payload_too_large
        else ok (record payload { bytes = payload.bytes ++ chunk }))
    else err length_overflow

-- The calls of `write_all` that `to_writer` makes; an empty slice makes no call of `write`.
unfoldable pub write_chunks : BoundedPayload → List (List ℕ) → Result FrameError BoundedPayload
write_chunks payload [] = ok payload
write_chunks payload ([] ∷ chunks) = write_chunks payload chunks
write_chunks payload ((byte ∷ bytes) ∷ chunks) = do
  next ← write payload (byte ∷ bytes)
  write_chunks next chunks

unfoldable pub serialize_message_with_limit :
    {T : Type 0} → Json T → T → ℕ → Result FrameError (List ℕ)
unfolding write_chunks
serialize_message_with_limit json message limit = do
  chunks ← context (json.to_chunks message) serialize_failed
  payload ← write_chunks (record { bytes = []; limit = limit }) chunks
  ok payload.bytes

-- `u32::to_be_bytes` and `u32::from_be_bytes`
abbrev pub to_be_bytes : ℕ → List ℕ
to_be_bytes n = n / 16_777_216 % 256 ∷ n / 65_536 % 256 ∷ n / 256 % 256 ∷ n % 256 ∷ []

abbrev pub from_be_bytes : ℕ → ℕ → ℕ → ℕ → ℕ
from_be_bytes a b c d = a * 16_777_216 + b * 65_536 + c * 256 + d

-- The stream behind the frame that is written.
unfoldable pub write_message : {T : Type 0} → Json T → List ℕ → T → Result FrameError (List ℕ)
unfolding serialize_message_with_limit
write_message json writer message = do
  payload ← serialize_message_with_limit json message max_protocol_message_bytes
  if ltb (length payload) 4_294_967_296
      then ok (writer ++ (to_be_bytes (length payload) ++ payload))
      else err exceeds_u32

-- `read_exact`: the bytes read and the rest of the stream.
unfoldable pub read_exact : ℕ → List ℕ → Result FrameError (List ℕ × List ℕ)
read_exact n reader =
    if leb n (length reader) then ok (take n reader, drop n reader) else err unexpected_eof

-- The body of `read_message` behind the four bytes of the length.
unfoldable pub read_payload : {T : Type 0} → Json T → ℕ → List ℕ → Result FrameError (T × List ℕ)
unfolding read_exact
read_payload json size reader =
    if ltb max_protocol_message_bytes size then err frame_too_large else do
      (payload, rest) ← read_exact size reader
      message ← context (json.from_slice payload) malformed
      ok (message, rest)

unfoldable pub read_message : {T : Type 0} → Json T → List ℕ → Result FrameError (T × List ℕ)
unfolding read_payload
read_message json (a ∷ b ∷ c ∷ d ∷ reader) = read_payload json (from_be_bytes a b c d) reader
read_message json reader = err unexpected_eof

write_chunks-cons :
    (payload : BoundedPayload) (b : ℕ) (bs : List ℕ) (chunks : List (List ℕ))
    → length payload.bytes + length (b ∷ bs) ≤ payload.limit
    → payload.limit < usize_mod
    → write_chunks payload ((b ∷ bs) ∷ chunks)
      ≡ write_chunks (record payload { bytes = payload.bytes ++ (b ∷ bs) }) chunks
unfolding write_chunks write
write_chunks-cons payload b bs chunks h l = rw (
  lt→ltb (length payload.bytes + length (b ∷ bs)) usize_mod (omega arith),
  le→ltb payload.limit (length payload.bytes + length (b ∷ bs)) h,
)

-- A payload that fits the limit is written whole.
write_chunks_fits :
    (payload : BoundedPayload) (chunks : List (List ℕ))
    → payload.limit < usize_mod
    → length (payload.bytes ++ flatten chunks) ≤ payload.limit
    → write_chunks payload chunks ≡ ok (record payload { bytes = payload.bytes ++ flatten chunks })
unfolding write_chunks flatten
write_chunks_fits payload [] l f = rw (append-nil payload.bytes)
write_chunks_fits payload ([] ∷ chunks) l f = write_chunks_fits payload chunks l f
write_chunks_fits payload ((b ∷ bs) ∷ chunks) l f =
    let whole = append_assoc payload.bytes (b ∷ bs) (flatten chunks) in
    let next : BoundedPayload = record payload { bytes = payload.bytes ++ (b ∷ bs) } in
    let fits : length (next.bytes ++ flatten chunks) ≤ next.limit = rw whole f in
    let part : length payload.bytes + length (b ∷ bs) ≤ payload.limit = omega (
      arith,
      fits,
      length-append (payload.bytes ++ (b ∷ bs)) (flatten chunks),
      length-append payload.bytes (b ∷ bs),
    ) in
    write_chunks-cons payload b bs chunks part l
    ∙ write_chunks_fits next chunks l fits
    ∙ ap (λ t. ok (record payload { bytes = t })) whole

write-eq-ok :
    (payload next : BoundedPayload) (chunk : List ℕ)
    → write payload chunk ≡ ok next
    → (next.bytes ≡ payload.bytes ++ chunk)
      × (next.limit ≡ payload.limit)
      × (length next.bytes ≤ payload.limit)
unfolding write
write-eq-ok payload next chunk h = ground (arith, length-append payload.bytes chunk)

-- What is written is the chunks, and it fits.
write_chunks-eq-ok :
    (payload next : BoundedPayload) (chunks : List (List ℕ))
    → length payload.bytes ≤ payload.limit
    → write_chunks payload chunks ≡ ok next
    → (next.bytes ≡ payload.bytes ++ flatten chunks) × (length next.bytes ≤ payload.limit)
unfolding write_chunks flatten
write_chunks-eq-ok payload next [] f h =
    let e : payload ≡ next = cc in rw (← e) (sym (append-nil payload.bytes), f)
write_chunks-eq-ok payload next ([] ∷ chunks) f h = write_chunks-eq-ok payload next chunks f h
write_chunks-eq-ok payload next ((b ∷ bs) ∷ chunks) f h =
    let (mid, written, rest) = >>=-eq-ok (write payload (b ∷ bs)) _ h in
    let (e, l, s) = write-eq-ok payload mid (b ∷ bs) written in
    let (e', s') = write_chunks-eq-ok mid next chunks (omega arith) rest in
    (
      e' ∙ ap (λ t. t ++ flatten chunks) e ∙ append_assoc payload.bytes (b ∷ bs) (flatten chunks),
      omega arith,
    )
