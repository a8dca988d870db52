-- ===== src/Database/Db.antt =====
-- The database of internal/database: its tables, and what the driver answers. `faults` says of the
-- next statements whether the driver fails them; where it ends, none fails. A failed statement
-- changes nothing.
use fssvrgo.Prelude.{
  Bool, true, false, String, Option, none, some, List, [], ◌∷◌, ◌≡◌, refl, ap, ◌∙◌, arith,
}
use fssvrgo.Prelude.Int.{ℤ}

-- FileMetadata
pub record FileMetadata : Type 0 where
  pub id : String
  pub path : String
  pub name : String
  pub size : ℤ
  pub hash : String
  pub storage_type : String
  pub storage_location : String
  pub created_at : String
  pub updated_at : String
  pub is_deleted : Bool

-- DirectoryMetadata
pub record DirectoryMetadata : Type 0 where
  pub id : String
  pub path : String
  pub name : String
  pub created_at : String
  pub updated_at : String
  pub is_deleted : Bool

-- ApiKey; `none` is NULL
pub record ApiKey : Type 0 where
  pub id : String
  pub key_hash : String
  pub name : String
  pub description : String
  pub permissions : String
  pub created_at : String
  pub expires_at : Option String
  pub last_used_at : Option String
  pub is_active : Bool

pub record Db : Type 0 where
  pub files : List FileMetadata
  pub directories : List DirectoryMetadata
  pub api_keys : List ApiKey
  pub faults : List Bool

pub data DbError : Type 0 where
  driver_failed constraint_failed scan_failed : DbError

-- What a call of the database returns, and the database after it
pub data Result (A : Type 0) : Type 0 where
  ok : A → Result A
  err : DbError → Result A

-- The driver's next answer
unfoldable pub next_fault : List Bool → Bool × List Bool
next_fault [] = (false, [])
next_fault (b ∷ rest) = (b, rest)

unfoldable pub rest_of : Db → Db
unfolding next_fault
rest_of db = record db { faults = (next_fault db.faults).1 }

module _ {A : Type 0} where
  -- QueryRow and Query
  unfoldable pub query : (Db → A) → Db → Result A × Db
  unfolding next_fault rest_of
  query read db = elim (next_fault db.faults).0 [
    | true ↦ (err driver_failed, rest_of db)
    | false ↦ (ok (read db), rest_of db)
  ]

  -- What holds of a failed query and of its answer holds of the query.
  pub query_rule {κ} :
      (P : Result A × Db → Type κ) (read : Db → A) (db : Db)
      → P (err driver_failed, rest_of db)
      → P (ok (read db), rest_of db)
      → P (query read db)
  unfolding query
  query_rule P read db bad good = go (next_fault db.faults).0
    where
      go :
          (b : Bool)
          → P (elim b [
            | true ↦ (err driver_failed, rest_of db)
            | false ↦ (ok (read db), rest_of db)
          ])
      go true = bad
      go false = good

unfoldable pub changed : Option Db → Db → Result (Unit {0}) × Db
changed none db = (err constraint_failed, db)
changed (some db') db = (ok tt, db')

-- Exec
unfoldable pub exec : (Db → Option Db) → Db → Result (Unit {0}) × Db
unfolding next_fault rest_of changed
exec write db = elim (next_fault db.faults).0 [
  | true ↦ (err driver_failed, rest_of db)
  | false ↦ changed (write (rest_of db)) (rest_of db)
]

-- The same for Exec: it wrote, or the tables are as they were.
pub exec_rule {κ} :
    (P : Result (Unit {0}) × Db → Type κ) (write : Db → Option Db) (db : Db)
    → ((e : DbError) → P (err e, rest_of db))
    → ((db' : Db) → write (rest_of db) ≡ some db' → P (ok tt, db'))
    → P (exec write db)
unfolding exec changed
exec_rule P write db bad good = go (next_fault db.faults).0
  where
    done : (o : Option Db) → write (rest_of db) ≡ o → P (changed o (rest_of db))
    done none e = bad constraint_failed
    done (some db') e = good db' e

    go :
        (b : Bool)
        → P (elim b [
          | true ↦ (err driver_failed, rest_of db)
          | false ↦ changed (write (rest_of db)) (rest_of db)
        ])
    go true = bad driver_failed
    go false = done (write (rest_of db)) refl

pub exec-ok :
    (write : Db → Option Db) (db db' : Db)
    → exec write db ≡ (ok tt, db')
    → write (rest_of db) ≡ some db'
exec-ok write db db' =
    exec_rule (λ w. w ≡ (ok tt, db') → write (rest_of db) ≡ some db') write db
      (λ e h. absurd (grind arith)) (λ d h g. h ∙ ap (λ w. some w.1) g)
