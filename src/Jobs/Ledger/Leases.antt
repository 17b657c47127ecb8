-- ===== src/Jobs/Ledger/Leases.antt =====
-- The row of one run under any number of workers: a step relation of claims, endings and time.
use compliance_data_layer.Base.{
  ℕ, ◌≤◌, ◌≡◌, Bool, true, List, [], ◌∷◌, ◌++◌, Option, none, some, filter, leb,
}
use compliance_data_layer.Base.Texts.{Text}
use compliance_data_layer.Jobs.Ledger.{Row, claim_row, complete_row, fail_row}

-- `active` holds the lease of each call that is inside its body. A worker that crashes stays there.
pub record System : Type 0 where
  pub now : ℕ
  pub row : Option Row
  pub active : List ℕ

abbrev pub start : ℕ → System
start now = record { now = now; row = none; active = [] }

-- The leases that have not passed.
abbrev pub live : ℕ → List ℕ → List ℕ
live now leases = filter (λ l. leb now l) leases

-- Time passes with each step. `timely` restricts the endings: with `true` no call ends after its
-- lease has passed.
pub data Step (timely : Bool) : System → System → Type 0 where
  claimed :
      (s : System) (now lease : ℕ) (tenant : Option Text) (row : Row)
      → s.now ≤ now
      → claim_row now lease tenant s.row ≡ some row
      → Step timely s (record { now = now; row = some row; active = lease ∷ s.active })
  completes :
      (s : System) (now lease : ℕ) (before after : List ℕ) (hash : Option Text)
      → s.now ≤ now
      → s.active ≡ before ++ lease ∷ after
      → (timely ≡ true → now ≤ lease)
      → Step timely s
          (record { now = now; row = complete_row now hash s.row; active = before ++ after })
  fails :
      (s : System) (now lease : ℕ) (before after : List ℕ) (error : Text)
      → s.now ≤ now
      → s.active ≡ before ++ lease ∷ after
      → (timely ≡ true → now ≤ lease)
      → Step timely s
          (record { now = now; row = fail_row now error s.row; active = before ++ after })
  waits : (s : System) (now : ℕ) → s.now ≤ now → Step timely s (record s { now = now })

pub data Reach (timely : Bool) (s : System) : System → Type 0 where
  here : Reach timely s s
  next : {t u : System} → Reach timely s t → Step timely t u → Reach timely s u
