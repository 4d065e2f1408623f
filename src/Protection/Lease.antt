-- ===== src/Protection/Lease.antt =====
-- `ProtectionLease`, `ProtectionMatch` and the checks on the fields of a lease, of
-- src/protection.rs. Times are whole seconds since the epoch, `unix_seconds(now)`.
use worktree_gc.Base.{
  ℕ, Bool, true, false, not, ◌&&◌, ◌||◌, List, [], ◌∷◌, leb, ltb, length, any, all, ◌==◌, list_eq,
  nat_eq, nat_beq, if◌then◌else◌, Result, ok, err, ensure, ◌>>◌, Option, none, some,
}
use worktree_gc.Text.{is_control, trim}
use worktree_gc.FilePath.{
  FilePath, Component, root_dir, cur_dir, parent_dir, normal, components, is_absolute,
  split_separator, dot, dot_dot,
}

-- The errors that the module raises; the texts of the messages carry no more than this and the names.
pub data ProtectionError : Type 0 where
  ttl_zero ttl_too_long empty_reason control_in_reason : ProtectionError
  bad_id_prefix bad_id_digits : ProtectionError
  path_not_absolute dotted_path control_in_path unresolved_path : ProtectionError
  registry_unreadable registry_malformed unsupported_version : ProtectionError
  expires_before_created duplicate_id duplicate_path : ProtectionError
  already_protected no_match beyond_limit not_canonical uninspectable : ProtectionError
  write_failed no_parent lock_failed unlock_failed registry_too_large : ProtectionError
  protected : ProtectionError

pub record ProtectionLease : Type 0 where
  pub id : List ℕ
  pub path : FilePath
  pub reason : List ℕ
  pub created_at_unix : ℕ
  pub expires_at_unix : ℕ

pub record ProtectionMatch : Type 0 where
  pub id : List ℕ
  pub path : FilePath
  pub reason : List ℕ
  pub expires_at_unix : ℕ

-- `impl From<&ProtectionLease> for ProtectionMatch`
unfoldable pub match_of : ProtectionLease → ProtectionMatch
match_of lease = record {
  id = lease.id;
  path = lease.path;
  reason = lease.reason;
  expires_at_unix = lease.expires_at_unix;
}

unfoldable pub is_active : ℕ → ProtectionLease → Bool
is_active now lease = ltb now lease.expires_at_unix

abbrev pub max_protection_ttl_days : ℕ
max_protection_ttl_days = 30

unfoldable pub validate_ttl : ℕ → Result ProtectionError Unit
validate_ttl ttl_days =
    if nat_beq ttl_days 0
    then err ttl_zero
    else if ltb max_protection_ttl_days ttl_days
    then err ttl_too_long
    else ok tt

unfoldable pub validate_reason : List ℕ → Result ProtectionError Unit
validate_reason reason = do
  ensure (not (trim reason == [])) empty_reason
  ensure (not (any is_control reason)) control_in_reason

-- `byte.is_ascii_digit() || (b'a'..=b'f').contains(&byte)`
unfoldable pub is_lowercase_hex : ℕ → Bool
is_lowercase_hex byte = (leb b'0' byte && leb byte b'9') || (leb b'a' byte && leb byte b'f')

-- `id.strip_prefix("p-")`
abbrev strip_id_prefix : List ℕ → Option (List ℕ)
strip_id_prefix (a ∷ b ∷ hash) = if nat_beq a b'p' && nat_beq b b'-' then some hash else none
strip_id_prefix _ = none

unfoldable pub validate_lease_id : List ℕ → Result ProtectionError Unit
unfolding is_lowercase_hex
validate_lease_id id = elim (strip_id_prefix id) [
  | none ↦ err bad_id_prefix
  | some hash ↦ ensure (nat_beq (length hash) 16 && all is_lowercase_hex hash) bad_id_digits
]

abbrev is_relative_component : Component → Bool
is_relative_component cur_dir = true
is_relative_component parent_dir = true
is_relative_component root_dir = false
is_relative_component (normal _) = false

-- A control character of the path read as UTF-8: one byte, or the two bytes 0xc2 0x80 to 0xc2 0x9f.
unfoldable pub has_control : List ℕ → Bool
has_control [] = false
has_control (b ∷ []) = leb b 31 || nat_beq b 127
has_control (b ∷ c ∷ bs) =
    leb b 31
    || nat_beq b 127
    || (nat_beq b 0xc2 && leb 0x80 c && leb c 0x9f)
    || has_control (c ∷ bs)

unfoldable pub validate_stored_path : FilePath → Result ProtectionError Unit
unfolding has_control
validate_stored_path path = do
  ensure (is_absolute path) path_not_absolute
  ensure
      (not (
        any is_relative_component (components path)
        || any (λ piece. piece == dot || piece == dot_dot) (split_separator path.bytes)))
      dotted_path
  ensure (not (has_control path.bytes)) control_in_path
