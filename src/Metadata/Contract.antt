-- ===== src/Metadata/Contract.antt =====
-- What the store interface of storage/metadata/metadata.go promises of UpdateSession: a
-- compare-and-swap of whole snapshots by their revision.
use rakit.Prelude.{
  ℕ, ◌+◌, String, Bool, not, ◌&&◌, ◌||◌, Option, none, some, ◌==◌, ltb, nat_eq, if◌then◌else◌,
}
use rakit.Metadata.{Session}

-- The stored snapshots by id.
abbrev pub Sessions : Type 0
Sessions = String → Option Session

-- The bounds of the numbers of a store: the revision that has no successor and the last time.
pub record Limits : Type 0 where
  pub last_revision : ℕ
  pub last_time : ℕ

-- The time of an update at the clock's `now`, later than the stored one.
abbrev pub later : ℕ → ℕ → ℕ
later now stored = if ltb stored now then now else stored + 1

-- The snapshot that is stored for `s` over `current`.
abbrev pub successor : ℕ → Session → Session → Session
successor now s current = record s {
  revision = s.revision + 1;
  created_at = current.created_at;
  updated_at = later now current.updated_at;
}

-- The caller's snapshot is of the stored revision, and that and the stored time have a successor.
abbrev pub can_follow : Limits → ℕ → Session → Session → Bool
can_follow limits now s current =
    ltb s.revision limits.last_revision
    && nat_eq s.revision current.revision
    && (ltb current.updated_at now || not (nat_eq current.updated_at limits.last_time))

abbrev pub put : Session → Sessions → Sessions
put s m k = if s.id == k then some s else m k

-- `none` is an error, which stores nothing.
unfoldable pub swap : Limits → ℕ → Session → Sessions → Option Session × Sessions
swap limits now s m = elim (m s.id) [
  | none ↦ (none, m)
  | some current ↦
      if can_follow limits now s current
      then (some (successor now s current), put (successor now s current) m)
      else (none, m)
]
