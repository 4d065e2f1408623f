-- ===== src/Examples/Fixtures.antt =====
-- A machine, a host, a lease and a worktree for the examples.
use worktree_gc.Base.{true, false, [], ◌∷◌, none, some, pos}
use worktree_gc.FilePath.{FilePath}
use worktree_gc.Protection.Lease.{ProtectionLease}
use worktree_gc.Protection.Registry.{Machine, ProtectionRegistry, RegistryFile, done}
use worktree_gc.Pressure.{Host, PressurePolicy}
use worktree_gc.PullRequest.{
  PullRequestRecord, PullRequestEvidence, PullRequestPolicy, merged_state, merged_lifecycle,
}
use worktree_gc.Worktree.{WorktreeInfo}

abbrev pub tree : FilePath
tree = record { bytes = b'/' ∷ b'w' ∷ [] }

abbrev pub build : FilePath
build = record { bytes = b'/' ∷ b'w' ∷ b'/' ∷ b't' ∷ [] }

abbrev pub nested : FilePath
nested = record { bytes = b'/' ∷ b'w' ∷ b'/' ∷ b't' ∷ b'/' ∷ b'n' ∷ [] }

abbrev pub elsewhere : FilePath
elsewhere = record { bytes = b'/' ∷ b'x' ∷ [] }

-- p-0000000000000000
abbrev pub lease : ProtectionLease
lease = record {
  id =
      b'p' ∷ b'-' ∷ b'0' ∷ b'0' ∷ b'0' ∷ b'0' ∷ b'0' ∷ b'0' ∷ b'0' ∷ b'0' ∷ b'0' ∷ b'0' ∷ b'0'
      ∷ b'0' ∷ b'0' ∷ b'0' ∷ b'0' ∷ b'0' ∷ [];
  path = build;
  reason = b'o' ∷ b'k' ∷ [];
  created_at_unix = 100;
  expires_at_unix = 900;
}

abbrev pub registry : ProtectionRegistry
registry = record { version = 1; leases = lease ∷ [] }

-- One file is readable and holds one lease, and no path is a link.
abbrev pub machine : Machine
machine = record {
  symlink_metadata = λ _. done false;
  canonicalize = λ path. done path;
  from_slice = λ _. some registry;
  to_vec_pretty = λ _. some (b'1' ∷ []);
  lease_hash = λ _ _. 10;
  can_write = true;
  can_lock = true;
  can_unlock = true;
}

abbrev pub stored : RegistryFile
stored = done (b'1' ∷ [])

-- Every path is on one disk with fifty bytes left.
abbrev pub host : Host
host = record {
  exists = λ _. true;
  filesystem_key = λ _. some "disk";
  available_space = λ _. some 50;
}

abbrev pub pressure : PressurePolicy
pressure = record {
  enter_bytes = 60;
  target_bytes = 100;
  generated_days = 1;
  stale_days = 2;
  owner_free_generated = true;
  active = true;
  entered_filesystems = "disk" ∷ [];
}

abbrev pub grace : PullRequestPolicy
grace = record { merged_grace_days = 7 }

abbrev pub merge : PullRequestRecord
merge = record {
  repository = "a/b";
  number = 5;
  url = "u";
  state = merged_state;
  head_ref_name = "topic";
  head_oid = "c0";
  merged_at_unix = some (pos 0);
}

abbrev pub evidence : PullRequestEvidence
evidence = record {
  provider = "github";
  observed_at_unix = 864_000;
  complete = true;
  lifecycle = merged_lifecycle;
  repositories = "a/b" ∷ [];
  pull_requests = merge ∷ [];
  error = none;
}

-- A clean worktree on a branch, last committed to at the epoch.
abbrev pub worktree : WorktreeInfo
worktree = record {
  path = tree;
  head = some "c0";
  branch = some "topic";
  detached = false;
  prunable = none;
  exists = true;
  is_current = false;
  dirty_count = some 0;
  status_sha256 = some "s";
  upstream = none;
  ahead = none;
  behind = none;
  last_commit_unix = some (pos 0);
  last_commit = none;
  activity_unix = none;
  activity_age_days = some 10;
}
