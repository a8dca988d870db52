-- ===== src/Database/Keys/Tests.antt =====
-- The service of API keys at a table of two keys.
use fssvrgo.Prelude.{some, true, false, String, none, List, [], ◌∷◌, ◌≡◌, refl, inl}
use fssvrgo.Database.Db.{ApiKey, Db, err, scan_failed}
use fssvrgo.Database.Keys.{create, deactivate, get_by_key_hash, list_keys}
use fssvrgo.Database.Keys.Revoked.{Admits, get_by_key_hash-Admits}

abbrev key : String → String → ApiKey
key id hash = record {
  id = id;
  key_hash = hash;
  name = "n";
  description = "";
  permissions = "read";
  created_at = "2024";
  expires_at = none;
  last_used_at = none;
  is_active = true;
}

abbrev lasting : ApiKey
lasting = record (key "2" "y") { expires_at = some "2026" }

abbrev with_keys : List ApiKey → Db
with_keys keys = record { files = []; directories = []; api_keys = keys; faults = [] }

abbrev two_keys : Db
two_keys = with_keys (key "1" "x" ∷ lasting ∷ [])

abbrev one_revoked : Db
one_revoked = with_keys (record (key "1" "x") { is_active = false } ∷ lasting ∷ [])

get_by_key_hash-Admits_example : Admits "1" "y" "2025" lasting
unfolding deactivate get_by_key_hash
get_by_key_hash-Admits_example =
    get_by_key_hash-Admits "1" "y" "2025" two_keys one_revoked one_revoked lasting (inl refl) refl

-- A key that was never used cannot be listed.
never_used :
    (list_keys (λ rows. rows) false 1 10 (create (key "3" "z") two_keys).1).0 ≡ err scan_failed
unfolding list_keys create
never_used = refl
