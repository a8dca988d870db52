-- ===== src/Database/Table.antt =====
-- A table as the statements of internal/database/metadata.go use it: the rows are in no order that
-- a statement promises, and two of its columns, the primary key and a UNIQUE column, hold no value
-- twice. A statement that would leave one twice fails.
use fssvrgo.Prelude.{
  subst, eq_refl, is_some, ap, ℕ, Bool, true, false, not, ◌&&◌, ◌||◌, String, Option, none, some,
  List, [], ◌∷◌, str_eq, if◌then◌else◌, ◌≡◌, refl, arith, eq_iff, suc, if_rule,
}

module _ {R : Type 0} where
  -- SELECT ... WHERE: all rows, and the first
  unfoldable pub select : (R → Bool) → List R → List R
  select test [] = []
  select test (r ∷ rows) = let others = select test rows in if test r then r ∷ others else others

  unfoldable pub select_one : (R → Bool) → List R → Option R
  select_one test [] = none
  select_one test (r ∷ rows) = let other = select_one test rows in if test r then some r else other

  -- SELECT COUNT(*) ... WHERE
  unfoldable pub count : (R → Bool) → List R → ℕ
  count test [] = 0
  count test (r ∷ rows) = let n = count test rows in if test r then suc n else n

  -- UPDATE ... SET ... WHERE, before the constraints are checked
  unfoldable pub update : (R → Bool) → (R → R) → List R → List R
  update test set [] = []
  update test set (r ∷ rows) =
      let others = update test set rows in if test r then set r ∷ others else r ∷ others

  -- DELETE ... WHERE
  unfoldable pub remove : (R → Bool) → List R → List R
  remove test [] = []
  remove test (r ∷ rows) = let others = remove test rows in if test r then others else r ∷ others

  unfoldable pub holds_value : (R → String) → String → List R → Bool
  holds_value column value [] = false
  holds_value column value (r ∷ rows) =
      let later = holds_value column value rows in str_eq (column r) value || later

  unfoldable pub is_distinct : (R → String) → List R → Bool
  unfolding holds_value
  is_distinct column [] = true
  is_distinct column (r ∷ rows) =
      let others = is_distinct column rows in not (holds_value column (column r) rows) && others

  -- The rows after a statement, if they keep to the two constraints
  unfoldable pub checked : (R → String) → (R → String) → List R → Option (List R)
  unfolding is_distinct
  checked key column rows =
      if is_distinct key rows && is_distinct column rows then some rows else none

  pub checked-some :
      (key column : R → String) (rows rows' : List R)
      → checked key column rows ≡ some rows'
      → (rows' ≡ rows) × (is_distinct key rows' ≡ true) × (is_distinct column rows' ≡ true)
  unfolding checked
  checked-some key column rows rows' h = ground (arith, h)

  -- Where no row has the value, no row is found by it.
  pub select_one_absent :
      (column : R → String) (value : String) (test : R → Bool) (rows : List R)
      → ((r : R) → test r ≡ true → column r ≡ value)
      → holds_value column value rows ≡ false
      → select_one test rows ≡ none
  unfolding holds_value select_one
  select_one_absent column value test [] only h = refl
  select_one_absent column value test (r ∷ rows) only h =
      ground (arith, only r, eq_iff (column r) value, select_one_absent column value test rows only)

  -- An update that keeps the column keeps the values that it holds.
  pub holds_value-update :
      (column : R → String) (value : String) (test : R → Bool) (set : R → R) (rows : List R)
      → ((r : R) → column (set r) ≡ column r)
      → holds_value column value (update test set rows) ≡ holds_value column value rows
  unfolding holds_value update
  holds_value-update column value test set [] keeps = refl
  holds_value-update column value test set (r ∷ rows) keeps =
      if_rule
        (λ x.
          holds_value column value x ≡ (str_eq (column r) value || holds_value column value rows))
        (test r) (λ h. ground (arith, keeps r, holds_value-update column value test set rows keeps))
        (λ h. ground (arith, holds_value-update column value test set rows keeps))

  pub is_distinct-update :
      (column : R → String) (test : R → Bool) (set : R → R) (rows : List R)
      → ((r : R) → column (set r) ≡ column r)
      → is_distinct column (update test set rows) ≡ is_distinct column rows
  unfolding is_distinct update
  is_distinct-update column test set [] keeps = refl
  is_distinct-update column test set (r ∷ rows) keeps =
      if_rule (λ x. is_distinct column x ≡ is_distinct column (r ∷ rows)) (test r)
        (λ h. ground (
          arith,
          keeps r,
          holds_value-update column (column r) test set rows keeps,
          is_distinct-update column test set rows keeps,
        ))
        (λ h. ground (
          arith,
          holds_value-update column (column r) test set rows keeps,
          is_distinct-update column test set rows keeps,
        ))

  -- An update whose rows are found neither before nor after it changes no answer.
  pub select_one-update_apart :
      (found test : R → Bool) (set : R → R) (rows : List R)
      → ((r : R) → test r ≡ true → (found r ≡ false) × (found (set r) ≡ false))
      → select_one found (update test set rows) ≡ select_one found rows
  unfolding select_one update
  select_one-update_apart found test set [] apart = refl
  select_one-update_apart found test set (r ∷ rows) apart =
      if_rule (λ x. select_one found x ≡ select_one found (r ∷ rows)) (test r)
        (λ h. ground (arith, apart r h, select_one-update_apart found test set rows apart))
        (λ h. ground (arith, select_one-update_apart found test set rows apart))

  -- An update of the rows that a query finds makes the query find what it wrote.
  pub select_one-update_hit :
      (found test : R → Bool) (set : R → R) (v : R) (rows : List R)
      → ((r : R) → test r ≡ true → (found (set r) ≡ true) × (set r ≡ v))
      → ((r : R) → test r ≡ false → found r ≡ false)
      → is_some (select_one test rows) ≡ true
      → select_one found (update test set rows) ≡ some v
  unfolding select_one update
  select_one-update_hit found test set v [] hit miss there = ground arith
  select_one-update_hit found test set v (r ∷ rows) hit miss there =
      if_rule (λ x. select_one found x ≡ some v) (test r) (λ h. rw ((hit r h).0, (hit r h).1) refl)
        (λ h. rw (miss r h) (
          select_one-update_hit found test set v rows hit miss
            (subst (λ b. is_some (if b then some r else select_one test rows) ≡ true) h there)))

  -- What a query finds passes its test.
  pub select_one-true :
      (found : R → Bool) (r : R) (rows : List R) → select_one found rows ≡ some r → found r ≡ true
  unfolding select_one
  select_one-true found r [] h = ground arith
  select_one-true found r (s ∷ rows) h = grind (arith, select_one-true found r rows)

  -- A value that a found row has is held.
  pub holds_value_found :
      (column : R → String) (found : R → Bool) (r : R) (rows : List R)
      → select_one found rows ≡ some r
      → holds_value column (column r) rows ≡ true
  unfolding select_one holds_value
  holds_value_found column found r [] h = ground arith
  holds_value_found column found r (s ∷ rows) h =
      grind (arith, eq_refl (column r), holds_value_found column found r rows)

  -- An update of the rows with a value that no row holds changes nothing.
  pub update_absent :
      (column : R → String) (value : String) (set : R → R) (rows : List R)
      → holds_value column value rows ≡ false
      → update (λ r. str_eq (column r) value) set rows ≡ rows
  unfolding update holds_value
  update_absent column value set [] h = refl
  update_absent column value set (r ∷ rows) h =
      if_rule (λ x. x ≡ r ∷ rows) (str_eq (column r) value) (λ e. absurd (ground arith))
        (λ e. ap (λ x. r ∷ x) (update_absent column value set rows (ground arith)))
