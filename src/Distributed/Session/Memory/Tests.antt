-- ===== src/Distributed/Session/Memory/Tests.antt =====
-- The memory session store at concrete inputs.
use fssvrgo.Prelude.{
  ℕ, ◌+◌, ◌≡◌, refl, ◌&&◌, none, some, [], ◌∷◌, arith, str_eq, ltb, if◌then◌else◌, lookup, insert,
  erase,
}
use fssvrgo.Distributed.Session.Memory.{
  MemoryStore, store_key, set, get, get_around, is_expired, drop_key,
}
use fssvrgo.Distributed.Session.Memory.RoundTrip.{get-set}

abbrev store : MemoryStore ℕ
store = record { entries = ("upload:a", 1) ∷ []; ttls = [] }

abbrev expired : MemoryStore ℕ
expired = record { entries = ("upload:a", 1) ∷ []; ttls = ("upload:a", 9) ∷ [] }

get-set_example : (get (set store "upload" "a" 5 10 100).1 "upload" "a" 109).0 ≡ (
    if str_eq "upload" "upload" && str_eq "a" "a"
    then (if ltb (100 + 10) 109 then none else some 5)
    else (get store "upload" "a" 109).0)
get-set_example = get-set store "upload" "upload" "a" "a" refl refl 5 10 100 109 (omega arith)

-- A Set between the two locks of a Get of an expired entry is lost.
lost_set :
    (get
      (get_around (λ s. (set s "upload" "a" 5 10 100).1) expired "upload" "a" 100).1
      "upload"
      "a"
      100).0
    ≡ none
unfolding get_around get set store_key lookup is_expired drop_key erase insert
lost_set = refl
