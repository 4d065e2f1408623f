-- ===== src/Examples/Frames.antt =====
-- The theorems about src/ownership_protocol.rs at concrete messages.
use worktree_gc.Base.{
  ℕ, ◌+◌, ◌≤◌, ◌≡◌, refl, List, [], ◌∷◌, ◌++◌, some, length, ok, arith, ap, subst, some-eq-some,
}
use mathlib.Core.List.{flatten, append-nil}
use worktree_gc.OwnershipProtocol.Hex.{
  IsBytes, encode_hex, decode_hex, decode_hex-encode_hex, encode_hex-decode_hex,
}
use worktree_gc.OwnershipProtocol.Frame.{
  Json, IsJson, max_protocol_message_bytes, read_message, write_message,
}
use worktree_gc.OwnershipProtocol.Frame.RoundTrip.{read-write, read_message_bounded}

abbrev bytes : List ℕ
bytes = 0 ∷ 171 ∷ 255 ∷ []

abbrev encoded : List ℕ
encoded = b'0' ∷ b'0' ∷ b'a' ∷ b'b' ∷ b'f' ∷ b'f' ∷ []

decode_hex-encode_hex_example : decode_hex (encode_hex bytes) ≡ ok bytes
decode_hex-encode_hex_example =
    decode_hex-encode_hex bytes (omega arith, (omega arith, (omega arith, tt)))

encode_hex-decode_hex_example : (encode_hex bytes ≡ encoded) × IsBytes bytes
encode_hex-decode_hex_example = encode_hex-decode_hex encoded bytes (unfold decode_hex in refl)

-- A message that is its own serialisation, in one slice.
abbrev plain : Json (List ℕ)
plain = record { to_chunks = λ message. some (message ∷ []); from_slice = λ payload. some payload }

plain-IsJson : IsJson plain
unfolding flatten
plain-IsJson = record {
  from_slice-to_chunks = λ message chunks h.
      subst (λ c. some (flatten c) ≡ some message) (some-eq-some h) (ap some (append-nil message));
}

abbrev frame : List ℕ
frame = 0 ∷ 0 ∷ 0 ∷ 2 ∷ 7 ∷ 8 ∷ []

read-write_example :
    (out : List ℕ) × (9 ∷ frame ≡ (9 ∷ []) ++ out)
    × (length out ≤ max_protocol_message_bytes + 4)
    × ((rest : List ℕ) → read_message plain (out ++ rest) ≡ ok (7 ∷ 8 ∷ [], rest))
unfolding worktree_gc.OwnershipProtocol.Frame.write
read-write_example =
    read-write plain plain-IsJson (9 ∷ []) (9 ∷ frame) (7 ∷ 8 ∷ []) (unfold write_message in refl)

read_message_bounded_example :
    (head payload : List ℕ) × (frame ++ (5 ∷ []) ≡ head ++ (payload ++ (5 ∷ [])))
    × (length head ≡ 4)
    × (length payload ≤ max_protocol_message_bytes)
    × (plain.from_slice payload ≡ some (7 ∷ 8 ∷ []))
read_message_bounded_example =
    read_message_bounded plain (frame ++ (5 ∷ [])) (5 ∷ []) (7 ∷ 8 ∷ [])
      (unfold read_message in refl)
