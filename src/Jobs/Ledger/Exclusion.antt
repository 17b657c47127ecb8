-- ===== src/Jobs/Ledger/Exclusion.antt =====
-- apps/web/jobs/idempotent.ts: how many leases are live at a time.
use mathlib.Core.Bool.{false≢true}
use compliance_data_layer.Base.{
  ℕ, ◌+◌, ◌≤◌, ◌<◌, ◌≡◌, ◌≢◌, ◌⊎◌, inl, inr, refl, ap, sym, ◌∙◌, subst, true, false, List, [], ◌∷◌,
  ◌++◌, Option, none, some, arith, leb, length, Bool-cases,
}
use compliance_data_layer.Base.Texts.{Text}
use compliance_data_layer.Jobs.Ledger.{Row, running, failed, claim_row, fail_row}
use compliance_data_layer.Jobs.Ledger.Leases.{
  System, start, live, Step, claimed, completes, fails, waits, Reach, here, next,
}

-- The row says who is inside: its lease is the only one that has not passed.
abbrev Holds : ℕ → Option Row → ℕ → Type 0
Holds now none lease = ⊥
Holds now (some row) lease = (row.status ≡ running) × (row.lease_until ≡ lease)

abbrev pub Inv : System → Type 0
Inv s =
    (live s.now s.active ≡ [])
    ⊎ ((lease : ℕ) × (live s.now s.active ≡ lease ∷ []) × Holds s.now s.row lease)

live-append : (now : ℕ) (xs ys : List ℕ) → live now (xs ++ ys) ≡ live now xs ++ live now ys
live-append now [] ys = refl
live-append now (x ∷ xs) ys = ground (arith, live-append now xs ys)

-- Time only takes leases away.
live_later : (now now' : ℕ) (xs : List ℕ) → now ≤ now' → live now' (live now xs) ≡ live now' xs
live_later now now' [] h = refl
live_later now now' (x ∷ xs) h = ground (arith, live_later now now' xs h)

Inv-later : (s : System) (now : ℕ) → s.now ≤ now → Inv s → Inv (record s { now = now })
Inv-later s now h (inl e) = inl (sym (live_later s.now now s.active h) ∙ ap (live now) e)
Inv-later s now h (inr (l, e, holds)) = elim (Bool-cases (leb now l)) [
  | inl alive ↦ inr (
    l,
    sym (live_later s.now now s.active h) ∙ ap (live now) e ∙ rw alive refl,
    Holds-now s.row holds,
  )
  | inr dead ↦ inl (sym (live_later s.now now s.active h) ∙ ap (live now) e ∙ rw dead refl)
]
  where
    Holds-now : (row : Option Row) → Holds s.now row l → Holds now row l
    Holds-now none k = k
    Holds-now (some row) k = k

live_head : (now l : ℕ) (xs ys : List ℕ) → live now xs ≡ l ∷ ys → now ≤ l
live_head now l [] ys e = absurd (cc)
live_head now l (x ∷ xs) ys e = ground (arith, live_head now l xs ys)

claim-running :
    (now lease : ℕ) (tenant : Option Text) (row : Option Row) {row' : Row}
    → claim_row now lease tenant row ≡ some row'
    → (row'.status ≡ running) × (row'.lease_until ≡ lease)
unfolding claim_row
claim-running now lease tenant none h = ground arith
claim-running now lease tenant (some row) h = ground arith

-- The guard of the conflict clause: a row whose lease is live is not claimed.
claim-Holds :
    (now lease l : ℕ) (tenant : Option Text) (row : Option Row)
    → Holds now row l
    → now ≤ l
    → claim_row now lease tenant row ≡ none
unfolding claim_row
claim-Holds now lease l tenant none h k = absurd h
claim-Holds now lease l tenant (some row) h k = ground arith

append-single : (xs ys : List ℕ) (a b : ℕ) → xs ++ a ∷ ys ≡ b ∷ [] → xs ++ ys ≡ []
append-single [] ys a b e = ground arith
append-single (x ∷ []) ys a b e = absurd (cc)
append-single (x ∷ y ∷ xs) ys a b e = absurd (cc)

append_cons_ne : (xs ys : List ℕ) (a : ℕ) → xs ++ a ∷ ys ≢ []
append_cons_ne [] ys a = cc
append_cons_ne (x ∷ xs) ys a = cc

-- A call that ends in time held the only live lease.
Inv-ends :
    (now lease : ℕ) (before after : List ℕ) (row row' : Option Row)
    → now ≤ lease
    → Inv (record { now = now; row = row; active = before ++ lease ∷ after })
    → Inv (record { now = now; row = row'; active = before ++ after })
Inv-ends now lease before after row row' h inv =
    let alive : live now (lease ∷ after) ≡ lease ∷ live now after = ground arith in
    let split = live-append now before (lease ∷ after) ∙ ap (λ t. live now before ++ t) alive in
    inl (live-append now before after ∙ no_other split inv)
  where
    no_other :
        live now (before ++ lease ∷ after) ≡ live now before ++ lease ∷ live now after
        → Inv (record { now = now; row = row; active = before ++ lease ∷ after })
        → live now before ++ live now after ≡ []
    no_other split (inl e) =
        absurd (append_cons_ne (live now before) (live now after) lease (sym split ∙ e))
    no_other split (inr (l, e, _)) =
        append-single (live now before) (live now after) lease l (sym split ∙ e)

Inv-claimed :
    (now lease : ℕ) (tenant : Option Text) (row : Option Row) (row' : Row) (active : List ℕ)
    → claim_row now lease tenant row ≡ some row'
    → Inv (record { now = now; row = row; active = active })
    → Inv (record { now = now; row = some row'; active = lease ∷ active })
Inv-claimed now lease tenant row row' active h (inl none_live) = elim (Bool-cases (leb now lease)) [
  | inl alive ↦ inr (lease, rw (alive, none_live) refl, claim-running now lease tenant row h)
  | inr dead ↦ inl (rw (dead, none_live) refl)
]
Inv-claimed now lease tenant row row' active h (inr (l, e, holds)) =
    absurd
      (none_ne (sym (claim-Holds now lease l tenant row holds (live_head now l active [] e)) ∙ h))
  where
    none_ne : none ≢ some row'
    none_ne = cc

Step-Inv : {s t : System} → Step true s t → Inv s → Inv t
Step-Inv (claimed s now lease tenant row later h) inv =
    Inv-claimed now lease tenant s.row row s.active h (Inv-later s now later inv)
Step-Inv (completes s now lease before after hash later e timely) inv =
    Inv-ends now lease before after s.row _ (timely refl) (
      subst (λ a. Inv (record { now = now; row = s.row; active = a })) e
        (Inv-later s now later inv))
Step-Inv (fails s now lease before after error later e timely) inv =
    Inv-ends now lease before after s.row _ (timely refl) (
      subst (λ a. Inv (record { now = now; row = s.row; active = a })) e
        (Inv-later s now later inv))
Step-Inv (waits s now later) inv = Inv-later s now later inv

Reach-Inv : {s t : System} → Inv s → Reach true s t → Inv t
Reach-Inv h here = h
Reach-Inv h (next r st) = Step-Inv st (Reach-Inv h r)

length-live : (s : System) → Inv s → length (live s.now s.active) ≤ 1
length-live s (inl e) = omega (arith, ap length e)
length-live s (inr (l, e, _)) = omega (arith, ap length e)

-- As long as no call ends after its lease has passed, at most one of the calls inside their bodies
-- has a live lease, in every state that any workers reach by claims, endings, crashes and waiting.
pub live_at_most_one :
    (now : ℕ) {t : System} → Reach true (start now) t → length (live t.now t.active) ≤ 1
live_at_most_one now {t} r = length-live t (Reach-Inv (inl refl) r)

abbrev failed_by : ℕ → Text → Row → Row
failed_by now error row = record row { status = failed; finished_at = some now; error = some error }

abbrev reclaimed : ℕ → ℕ → Row → Row
reclaimed now lease row = record row {
  status = running;
  attempt = row.attempt + 1;
  lease_until = lease;
  started_at = now;
}

-- Without that premise two live leases can be reached: the last update of a call does not look at who
-- holds the row. Where a call has outlived its lease and another has taken the run over, the failure
-- of the first marks the row `failed`, and a third worker claims it beside the second.
pub stale_failure_overlaps :
    (s : System) (row : Row) (stale lease lease' : ℕ)
    → s.row ≡ some row
    → s.active ≡ lease ∷ stale ∷ []
    → stale < s.now
    → s.now ≤ lease
    → s.now ≤ lease'
    → (t : System) × Reach false s t × (2 ≤ length (live t.now t.active))
unfolding claim_row fail_row
stale_failure_overlaps s row stale lease lease' at_row calls late held fresh = (
  record {
    now = s.now;
    row = some (reclaimed s.now lease' (failed_by s.now [] row));
    active = lease' ∷ lease ∷ [];
  },
  next
      (next here
        (fails s s.now stale (lease ∷ []) [] [] (omega arith) calls (λ e. absurd (false≢true e))))
      (claimed _ s.now lease' none (reclaimed s.now lease' (failed_by s.now [] row)) (omega arith)
        (rw at_row refl)),
  ground arith,
)
