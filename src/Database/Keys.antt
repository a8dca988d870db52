-- ===== src/Database/Keys.antt =====
-- ApiKeyService of internal/database/metadata.go. The clock is an argument; a text column keeps what
-- was written. An ApiKey's empty ExpiresAt and LastUsedAt are `none` here, as they are NULL in the table.
mod Tests
pub mod Revoked
use Prim.Native.String.{compare}
use text.Mathlib.Text.{is_lt}
use fssvrgo.Prelude.{
  ℕ, Bool, true, false, ◌&&◌, ◌||◌, not, String, Option, none, some, List, [], ◌∷◌, str_eq, is_some,
  if◌then◌else◌, take, drop, ◌-◌, ◌*◌,
}
use fssvrgo.Database.Table.{select, select_one, update, remove as delete, checked}
use fssvrgo.Database.Db.{ApiKey, Db, Result, ok, err, scan_failed, query, exec}

-- The statements that write, with the constraints of the table
unfoldable pub update_keys : (ApiKey → Bool) → (ApiKey → ApiKey) → Db → Option Db
unfolding checked update
update_keys test set db =
    elim (checked (λ r. r.id) (λ r. r.key_hash) (update test set db.api_keys)) [
      | none ↦ none
      | some keys ↦ some (record db { api_keys = keys })
    ]

unfoldable pub insert_key : ApiKey → Db → Option Db
unfolding checked
insert_key key db = elim (checked (λ r. r.id) (λ r. r.key_hash) (key ∷ db.api_keys)) [
  | none ↦ none
  | some keys ↦ some (record db { api_keys = keys })
]

-- Create: a new key has not been used.
unfoldable pub create : ApiKey → Db → Result (Unit {0}) × Db
unfolding exec insert_key
create key db = exec (insert_key (record key { last_used_at = none })) db

-- UPDATE api_keys SET name = ?, description = ?, permissions = ?, expires_at = ?, is_active = ?
abbrev pub replaced : ApiKey → ApiKey → ApiKey
replaced key r = record key {
  id = r.id;
  key_hash = r.key_hash;
  created_at = r.created_at;
  last_used_at = r.last_used_at;
}

-- Update
unfoldable pub update_key : ApiKey → Db → Result (Unit {0}) × Db
unfolding exec update_keys
update_key key db = exec (update_keys (λ r. str_eq r.id key.id) (replaced key)) db

-- Remove: DELETE, which breaks no constraint
unfoldable pub remove : String → Db → Result (Unit {0}) × Db
unfolding exec delete
remove id db =
    exec (λ db. some (record db { api_keys = delete (λ r. str_eq r.id id) db.api_keys })) db

-- UpdateLastUsed
unfoldable pub update_last_used : String → String → Db → Result (Unit {0}) × Db
unfolding exec update_keys
update_last_used now id db =
    exec (update_keys (λ r. str_eq r.id id) (λ r. record r { last_used_at = some now })) db

-- Deactivate
unfoldable pub deactivate : String → Db → Result (Unit {0}) × Db
unfolding exec update_keys
deactivate id db = exec (update_keys (λ r. str_eq r.id id) (λ r. record r { is_active = false })) db

-- IsExpired: timestamps are compared as texts.
unfoldable pub is_expired : String → ApiKey → Bool
is_expired now key = elim key.expires_at [
  | none ↦ false
  | some t ↦ not (str_eq t "") && is_lt (compare t now)
]

-- GetById
unfoldable pub get_by_id : String → Db → Result (Option ApiKey) × Db
unfolding query select_one
get_by_id id db = query (λ db. select_one (λ r. str_eq r.id id) db.api_keys) db

unfoldable pub is_active_at : String → ApiKey → Bool
is_active_at hash r = str_eq r.key_hash hash && r.is_active

unfoldable pub unexpired : String → Option ApiKey → Option ApiKey
unfolding is_expired
unexpired now none = none
unexpired now (some key) = if is_expired now key then none else some key

-- GetByKeyHash
unfoldable pub get_by_key_hash : String → String → Db → Result (Option ApiKey) × Db
unfolding query select_one is_active_at unexpired
get_by_key_hash hash now db =
    query (λ db. unexpired now (select_one (is_active_at hash) db.api_keys)) db

-- The rows are scanned into plain strings, which fails on a NULL.
unfoldable pub are_scanned : List ApiKey → Bool
are_scanned [] = true
are_scanned (r ∷ rest) =
    let later = are_scanned rest in is_some r.expires_at && is_some r.last_used_at && later

unfoldable pub scanned : Result (List ApiKey) × Db → Result (List ApiKey) × Db
unfolding are_scanned
scanned (err e, db) = (err e, db)
scanned (ok rows, db) = (if are_scanned rows then ok rows else err scan_failed, db)

-- List, at a page of at least 1 and a page size; `order` is the database's ORDER BY created_at DESC
unfoldable pub list_keys :
    (List ApiKey → List ApiKey) → Bool → ℕ → ℕ → Db → Result (List ApiKey) × Db
unfolding scanned query select
list_keys order active_only page page_size db = scanned (
    query
      (λ db. take page_size (
        drop ((page - 1) * page_size)
          (order (select (λ r. not active_only || r.is_active) db.api_keys))))
      db)
