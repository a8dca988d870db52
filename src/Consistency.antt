-- ===== src/Consistency.antt =====
-- ConsistencyManager of internal/consistency/consistency.go. A replica's LastSync is `none` for the
-- zero time. The clock is an argument; durations are in nanoseconds.
mod Tests
pub mod Quorum
use fssvrgo.Prelude.{
  ℕ, zero, suc, ◌-◌, ◌*◌, Bool, true, false, ◌&&◌, ◌||◌, String, Option, none, some, List, [], ◌∷◌,
  insert, ltb, str_eq, if◌then◌else◌,
}
use fssvrgo.Prelude.Int.{ℤ, pos, add64, lebℤ, ltbℤ}

-- ConsistencyLevel
pub data Level : Type 0 where
  level_none level_eventual level_strong : Level

-- ReplicaStatus
pub record ReplicaStatus : Type 0 where
  pub id : String
  pub address : String
  pub last_sync : Option ℕ
  pub version : ℤ
  pub available : Bool

-- ConsistencyManager
pub record ConsistencyManager : Type 0 where
  pub level : Level
  pub replica_count : ℤ
  pub read_quorum : ℤ
  pub write_quorum : ℤ
  pub sync_interval : ℕ
  pub local_version : ℤ
  pub replicas : List (String × ReplicaStatus)

unfoldable pub level_of : String → Level
level_of name =
    if str_eq name "strong"
    then level_strong
    else if str_eq name "eventual"
    then level_eventual
    else level_none

-- NewConsistencyManager; the sync loop takes five seconds for an interval of zero
unfoldable pub new_consistency_manager : String → ℤ → ℤ → ℤ → ℕ → ConsistencyManager
unfolding level_of
new_consistency_manager name count read write interval_ms = record {
  level = level_of name;
  replica_count = count;
  read_quorum = read;
  write_quorum = write;
  sync_interval = elim interval_ms [ zero ↦ 5_000_000_000 | suc n ↦ suc n * 1_000_000 ];
  local_version = pos 0;
  replicas = [];
}

-- IncrementVersion
unfoldable pub increment_version : ConsistencyManager → ConsistencyManager
increment_version cm = record cm { local_version = add64 cm.local_version (pos 1) }

-- countAvailableReplicas
unfoldable pub count_available : List (String × ReplicaStatus) → ℕ
count_available [] = 0
count_available ((id, r) ∷ rest) = let n = count_available rest in if r.available then suc n else n

-- BeforeWrite
unfoldable pub before_write : ConsistencyManager → Bool
unfolding count_available
before_write cm = elim cm.level [
  | level_strong ↦ lebℤ cm.write_quorum (add64 (pos (count_available cm.replicas)) (pos 1))
  | level_eventual ↦ true
  | level_none ↦ true
]

-- BeforeRead
unfoldable pub before_read : ConsistencyManager → Bool
unfolding count_available
before_read cm = elim cm.level [
  | level_strong ↦ lebℤ cm.read_quorum (add64 (pos (count_available cm.replicas)) (pos 1))
  | level_eventual ↦ true
  | level_none ↦ true
]

-- The loop of syncWrite and of asyncReplicate: the available replicas get the version.
unfoldable pub replicate_to : ℤ → ℕ → List (String × ReplicaStatus) → List (String × ReplicaStatus)
replicate_to version now [] = []
replicate_to version now ((id, r) ∷ rest) =
    let others = replicate_to version now rest in
    if r.available
    then (id, record r { last_sync = some now; version = version }) ∷ others
    else (id, r) ∷ others

-- syncWrite and asyncReplicate
unfoldable pub sync_write : ℤ → ℕ → ConsistencyManager → ConsistencyManager
unfolding replicate_to
sync_write version now cm = record cm { replicas = replicate_to version now cm.replicas }

-- AfterWrite; at the eventual level the replication is a later step of its own, sync_write
unfoldable pub after_write : ℕ → ConsistencyManager → ConsistencyManager
unfolding increment_version sync_write
after_write now cm0 =
    let cm = increment_version cm0 in
    elim cm.level [
      | level_strong ↦ sync_write cm.local_version now cm
      | level_eventual ↦ cm
      | level_none ↦ cm
    ]

-- RegisterReplica
unfoldable pub register_replica : String → String → ConsistencyManager → ConsistencyManager
register_replica id address cm = record cm {
  replicas =
      insert id
        (record { id = id; address = address; last_sync = none; version = pos 0; available = true })
        cm.replicas;
}

unfoldable pub is_silent : ℕ → ℕ → Option ℕ → Bool
is_silent interval now none = true
is_silent interval now (some t) = ltb (interval * 3) (now - t)

-- checkReplicaHealth
unfoldable pub check_health : ℕ → ℕ → List (String × ReplicaStatus) → List (String × ReplicaStatus)
unfolding is_silent
check_health interval now [] = []
check_health interval now ((id, r) ∷ rest) =
    let others = check_health interval now rest in
    if is_silent interval now r.last_sync
    then (id, record r { available = false }) ∷ others
    else (id, r) ∷ others

unfoldable pub check_replica_health : ℕ → ConsistencyManager → ConsistencyManager
unfolding check_health
check_replica_health now cm = record cm { replicas = check_health cm.sync_interval now cm.replicas }

-- HandleSyncRequest
unfoldable pub handle_sync_request : ℤ → ConsistencyManager → ℤ × ConsistencyManager
handle_sync_request version cm =
    let newest = if ltbℤ cm.local_version version then version else cm.local_version in
    (newest, record cm { local_version = newest })

pub data QuorumError : Type 0 where
  bad_read_quorum bad_write_quorum no_overlap : QuorumError

-- ValidateQuorum
unfoldable pub validate_quorum : ℤ → ℤ → ℤ → Option QuorumError
validate_quorum count read write =
    let nodes = add64 count (pos 1) in
    if lebℤ count (pos 0)
    then none
    else if lebℤ read (pos 0) || ltbℤ nodes read
    then some bad_read_quorum
    else if lebℤ write (pos 0) || ltbℤ nodes write
    then some bad_write_quorum
    else if lebℤ (add64 read write) nodes
    then some no_overlap
    else none
