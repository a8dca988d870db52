-- ===== src/Auth.antt =====
-- AuthService of internal/auth/auth.go: users, API keys, permissions. `hash` is hashApiKey; the
-- key lookup of the database and the JWT service's ValidateToken are fields of the state, a failed
-- lookup and an invalid token are `none`. The locks of the service make each operation atomic.
mod Tests
pub mod Keys
pub mod RateLimit
pub mod Tokens
use fssvrgo.Prelude.{
  ℕ, Bool, true, false, ◌&&◌, ◌||◌, not, String, Option, none, some, List, [], ◌∷◌, lookup, insert,
  erase, is_some, str_eq, if◌then◌else◌, split, trim_space,
}

-- User
pub record User : Type 0 where
  pub id : String
  pub api_key_hash : String
  pub name : String
  pub role : String
  pub enabled : Bool

-- database.ApiKey, as far as it is read here
pub record ApiKey : Type 0 where
  pub id : String
  pub name : String
  pub permissions : String
  pub is_active : Bool

-- Claims, without the registered ones
pub record Claims : Type 0 where
  pub user_id : String
  pub role : String
  pub token_type : String

-- AuthService without the failure records, which RateLimit keeps
pub record AuthService : Type 0 where
  pub users : List (String × User)
  pub auth_enabled : Bool
  pub default_api_key_hash : String
  pub validate_token : Option (String → Option Claims)
  pub api_key_lookup : Option (String → Option ApiKey)

-- NewAuthService
abbrev pub new_auth_service : AuthService
new_auth_service = record {
  users = [];
  auth_enabled = false;
  default_api_key_hash = "";
  validate_token = none;
  api_key_lookup = none;
}

-- SetApiKeyLookup
abbrev pub set_api_key_lookup : (String → Option ApiKey) → AuthService → AuthService
set_api_key_lookup f s = record s { api_key_lookup = some f }

module _ (hash : String → String) where
  -- Init, with the ValidateToken of the JWT service that it makes from a secret
  unfoldable pub init :
      (String → String → Option Claims) → Bool → String → AuthService → AuthService
  init new_jwt enabled key s =
      if enabled && not (str_eq key "")
      then record s {
        auth_enabled = enabled;
        default_api_key_hash = hash key;
        validate_token = some (new_jwt (hash key));
      }
      else record s { auth_enabled = enabled }

-- The loop over the users, in the order of the map.
unfoldable pub find_user : List (String × User) → String → Option User
find_user [] hashed = none
find_user ((id, u) ∷ rest) hashed =
    let later = find_user rest hashed in
    if u.enabled && str_eq u.api_key_hash hashed then some u else later

unfoldable pub active_key : Option (String → Option ApiKey) → String → Option ApiKey
active_key none hashed = none
active_key (some f) hashed = elim (f hashed) [
  | none ↦ none
  | some key ↦ if key.is_active then some key else none
]

unfoldable pub any_admin : List String → Bool
any_admin [] = false
any_admin (p ∷ ps) = str_eq (trim_space p) "admin" || any_admin ps

-- The role that the permissions of an API key give.
unfoldable pub role_of : String → String
unfolding any_admin
role_of permissions =
    if str_eq permissions "admin"
    then "admin"
    else if not (str_eq permissions "") && any_admin (split permissions 44)
    then "admin"
    else "user"

-- The claims that GetUserByApiKey accepts: those of an access token, or of one without a type.
unfoldable pub access_claims : Option (String → Option Claims) → String → Option Claims
access_claims none key = none
access_claims (some f) key = elim (f key) [
  | none ↦ none
  | some c ↦ if str_eq c.token_type "" || str_eq c.token_type "access" then some c else none
]

abbrev pub user_of_claims : Claims → User
user_of_claims c = record {
  id = c.user_id;
  api_key_hash = "";
  name = c.user_id;
  role = c.role;
  enabled = true;
}

abbrev pub default_admin : User
default_admin = record {
  id = "default";
  api_key_hash = "";
  name = "Default Admin";
  role = "admin";
  enabled = true;
}

unfoldable pub user_of_key : ApiKey → User
unfolding role_of
user_of_key k = record {
  id = k.id;
  api_key_hash = "";
  name = k.name;
  role = role_of k.permissions;
  enabled = true;
}

module _ (hash : String → String) where
  -- ValidateApiKey
  unfoldable pub validate_api_key : AuthService → String → Bool
  unfolding find_user active_key
  validate_api_key s key =
      if not s.auth_enabled
      then true
      else if str_eq key ""
      then false
      else if not (str_eq s.default_api_key_hash "") && str_eq (hash key) s.default_api_key_hash
      then true
      else if is_some (find_user s.users (hash key))
      then true
      else is_some (active_key s.api_key_lookup (hash key))

  -- GetUserByApiKey after the token was not accepted
  unfoldable pub user_of_hash : AuthService → String → Option User
  unfolding find_user active_key user_of_key
  user_of_hash s hashed =
      if not (str_eq s.default_api_key_hash "") && str_eq hashed s.default_api_key_hash
      then some default_admin
      else elim (find_user s.users hashed) [
        | some u ↦ some u
        | none ↦ elim (active_key s.api_key_lookup hashed) [
          | none ↦ none
          | some k ↦ some (user_of_key k)
        ]
      ]

  -- GetUserByApiKey
  unfoldable pub get_user_by_api_key : AuthService → String → Option User
  unfolding access_claims user_of_hash
  get_user_by_api_key s key =
      if not s.auth_enabled
      then none
      else if str_eq key ""
      then none
      else elim (access_claims s.validate_token key) [
        | some c ↦ some (user_of_claims c)
        | none ↦ user_of_hash s (hash key)
      ]

  unfoldable pub permits : Option User → String → String → Bool
  permits none resource action = false
  permits (some u) resource action =
      if not u.enabled
      then false
      else if str_eq u.role "admin"
      then true
      else if str_eq u.role "user" && str_eq resource "files"
      then str_eq action "read" || str_eq action "write"
      else false

  -- HasPermission
  unfoldable pub has_permission : AuthService → String → String → String → Bool
  unfolding get_user_by_api_key permits
  has_permission s key resource action =
      if not s.auth_enabled then true else permits (get_user_by_api_key s key) resource action

pub data UserError : Type 0 where
  empty_user_id user_exists user_not_found : UserError

-- CreateUser, UpdateUser and DeleteUser: the error, if any
unfoldable pub create_user : User → AuthService → Option UserError × AuthService
create_user u s =
    if str_eq u.id ""
    then (some empty_user_id, s)
    else if is_some (lookup u.id s.users)
    then (some user_exists, s)
    else (none, record s { users = insert u.id u s.users })

unfoldable pub update_user : User → AuthService → Option UserError × AuthService
update_user u s =
    if str_eq u.id ""
    then (some empty_user_id, s)
    else if not (is_some (lookup u.id s.users))
    then (some user_not_found, s)
    else (none, record s { users = insert u.id u s.users })

unfoldable pub delete_user : String → AuthService → Option UserError × AuthService
delete_user id s =
    if not (is_some (lookup id s.users))
    then (some user_not_found, s)
    else (none, record s { users = erase id s.users })

-- GetUserById
abbrev pub get_user_by_id : String → AuthService → Option User
get_user_by_id id s = lookup id s.users
