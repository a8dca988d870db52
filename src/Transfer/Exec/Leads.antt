-- ===== src/Transfer/Exec/Leads.antt =====
-- Triples for the operations of internal/service/transfer: from a state in `P`, a success ends in
-- `Q` and an early return in `E`.
use fssvrgo.Transfer.Types.{Outcome, ok, err}
use fssvrgo.Transfer.Exec.{Exec, ◌>>=◌, answer}

module _ {St A : Type 0} where
  abbrev pub Ends : (St → Type 0) → (St → Type 0) → Outcome A × St → Type 0
  Ends Q E (ok a, s) = Q s
  Ends Q E (err e, s) = E s

  pub record Leads (P Q E : St → Type 0) (m : Exec St A) : Type 0 where
    pub at : (s : St) → P s → Ends Q E (m s)

module _ {St A : Type 0} {P E : St → Type 0} where
  pub Leads-answer : (a : A) → Leads P P E (answer a)
  unfolding answer
  Leads-answer a = record { at = λ s h. h }

module _ {St A : Type 0} (E : St → Type 0) where
  -- What holds after a success and after an early return holds in the end.
  pub Ends-both : (w : Outcome A × St) → Ends E E w → E w.1
  Ends-both (ok a, s) h = h
  Ends-both (err e, s) h = h

module _ {St A B : Type 0} {P Q R E : St → Type 0} where
  pub Leads-bind :
      (m : Exec St A) (f : A → Exec St B)
      → Leads P Q E m
      → ((a : A) → Leads Q R E (f a))
      → Leads P R E (m >>= f)
  unfolding ◌>>=◌
  Leads-bind m f km kf = record { at = λ s h. go (m s) (km.at s h) }
    where
      go : (w : Outcome A × St) → Ends Q E w → Ends R E (((λ (t : St). w) >>= f) w.1)
      go (ok a, s) h = (kf a).at s h
      go (err e, s) h = h

-- Triples for the success of an operation, which name its result.
module _ {St A : Type 0} where
  abbrev pub Results : (A → St → Type 0) → Outcome A × St → Type 0
  Results Q (ok a, s) = Q a s
  Results Q (err e, s) = Unit

  pub record Gives (P : St → Type 0) (Q : A → St → Type 0) (m : Exec St A) : Type 0 where
    pub at : (s : St) → P s → Results Q (m s)

module _ {St A B : Type 0} {P : St → Type 0} {Q : A → St → Type 0} {R : B → St → Type 0} where
  pub Gives-bind :
      (m : Exec St A) (f : A → Exec St B)
      → Gives P Q m
      → ((a : A) → Gives (Q a) R (f a))
      → Gives P R (m >>= f)
  unfolding ◌>>=◌
  Gives-bind m f km kf = record { at = λ s h. go (m s) (km.at s h) }
    where
      go : (w : Outcome A × St) → Results Q w → Results R (((λ (t : St). w) >>= f) w.1)
      go (ok a, s) h = (kf a).at s h
      go (err e, s) h = tt
