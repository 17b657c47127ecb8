-- ===== src/Seeding/Plan/Loop.antt =====
-- packages/db/scripts/seed-rules.ts, the loops of buildPlan: what they keep of the owners and the rules.
use compliance_data_layer.Base.{
  ◌≡◌, refl, sym, ap, ◌∙◌, subst, Bool, true, false, List, [], ◌∷◌, ◌++◌, map, Option, none, some,
  is_some, Result, ok, err, >>=-eq-ok, throw_if-eq-ok, ok_inj, Bool-cases, inl, inr, arith, All,
  All-append, All-imp, All-map, append_assoc, append-nil,
}
use compliance_data_layer.Base.Texts.{Text, text_eq_refl}
use compliance_data_layer.Seeding.Extract.{
  Nodes, ExtractedRule, UnseedableRule, or_throw, extract_rules,
}
use compliance_data_layer.Seeding.Extract.Complete.{
  IsSeedable, extract_rules_complete, or_throw-eq-ok,
}
use compliance_data_layer.Seeding.Plan.{
  RegistryEntry, PlannedRule, PlanState, no_registry_entry, quarantined, before_slash,
  owner_or_throw, owning_spec_of, find_entry, listed, set_add, seedable_or, owned_by, add_file,
  add_unseen, plan_path, plan_paths, plan_entry, plan_entries,
}

listed-append-left :
    (j : Text) (ks ls : List Text) → listed j ks ≡ true → listed j (ks ++ ls) ≡ true
listed-append-left j [] ls h = cc
listed-append-left j (k ∷ ks) ls h = ground (arith, listed-append-left j ks ls)

listed-snoc : (k : Text) (ks : List Text) → listed k (ks ++ k ∷ []) ≡ true
listed-snoc k [] = ground (arith, text_eq_refl k)
listed-snoc k (j ∷ ks) = ground (arith, listed-snoc k ks)

listed-set_add : (j k : Text) (ks : List Text) → listed j ks ≡ true → listed j (set_add k ks) ≡ true
unfolding set_add
listed-set_add j k ks h = elim (Bool-cases (listed k ks)) [
  | inl there ↦ rw there h
  | inr new ↦ rw new (listed-append-left j ks (k ∷ []) h)
]

listed-set_add_self : (k : Text) (ks : List Text) → listed k (set_add k ks) ≡ true
unfolding set_add
listed-set_add_self k ks = elim (Bool-cases (listed k ks)) [
  | inl there ↦ rw there there
  | inr new ↦ rw new (listed-snoc k ks)
]

All-set_add :
    (P : Text → Type 0) (k : Text) (ks : List Text) → P k → All P ks → All P (set_add k ks)
unfolding set_add
All-set_add P k ks p a = elim (Bool-cases (listed k ks)) [
  | inl there ↦ rw there a
  | inr new ↦ rw new (All-append P ks (k ∷ []) a (p, tt))
]

owner_or_throw-eq-ok :
    (o : Option Text) {owner : Text} → owner_or_throw o ≡ ok owner → o ≡ some owner
owner_or_throw-eq-ok none h = cc
owner_or_throw-eq-ok (some []) h = cc
owner_or_throw-eq-ok (some (c ∷ s)) h = ap some (ok_inj h)

seedable_or-eq-ok :
    (found : Result UnseedableRule (List ExtractedRule)) {rs : List ExtractedRule}
    → seedable_or found ≡ ok rs
    → found ≡ ok rs
seedable_or-eq-ok (ok rs) h = ap ok (ok_inj h)
seedable_or-eq-ok (err e) h = cc

-- The owner of a rule is the directory of its file.
abbrev pub IsInDirectory : PlannedRule → Type 0
IsInDirectory r = before_slash r.extracted.source ≡ some r.spec_id

owned_by-IsInDirectory :
    (sha256 : Text → Text) (path owner : Text) (r : ExtractedRule)
    → before_slash path ≡ some owner
    → IsSeedable sha256 path r
    → IsInDirectory (owned_by owner r)
owned_by-IsInDirectory sha256 path owner r there seedable =
    subst (λ p. before_slash p ≡ some owner) (sym seedable.from) there

-- The entries that have no rule set, each with its reason.
abbrev pub reasons : RegistryEntry → Option Text → List (Text × Text)
reasons e none = []
reasons e (some reason) = (e.spec_id, reason) ∷ []

unfoldable pub unavailable_among : List RegistryEntry → List (Text × Text)
unavailable_among [] = []
unavailable_among (e ∷ es) = reasons e e.unavailable ++ unavailable_among es

module _ (sha256 : Text → Text) (read : Text → Nodes) (entries : List RegistryEntry) where
  -- An entry that the plan may name.
  abbrev pub IsLive : Text → Type 0
  IsLive id =
      (e : RegistryEntry) × (find_entry id entries ≡ some e) × (is_some e.unavailable ≡ false)

  pub record IsKept (st : PlanState) : Type 0 where
    pub referenced : All (λ (r : PlannedRule). listed r.spec_id st.owners ≡ true) st.rules
    pub placed : All IsInDirectory st.rules
    pub live : All IsLive st.owners

  add_file-IsKept :
      (owner path : Text) (st st' : PlanState)
      → before_slash path ≡ some owner
      → listed owner st.owners ≡ true
      → IsKept st
      → add_file sha256 read entries owner path st ≡ ok st'
      → IsKept st' × (st'.skipped ≡ st.skipped)
  add_file-IsKept owner path st st' there here kept h =
      let (rs, found, h₁) = >>=-eq-ok (seedable_or (extract_rules sha256 path (read path))) _ h in
      let (_, seedable) =
        extract_rules_complete sha256 path (read path) rs (seedable_or-eq-ok _ found) in
      subst (λ (s : PlanState). IsKept s × (s.skipped ≡ st.skipped)) (ok_inj h₁)
        (
          record {
            referenced =
                All-append _ st.rules (map (owned_by owner) rs) kept.referenced
                  (All-map (IsSeedable sha256 path) _ (owned_by owner) (λ r _. here) rs seedable);
            placed = All-append _ st.rules (map (owned_by owner) rs) kept.placed (
                All-map (IsSeedable sha256 path) IsInDirectory (owned_by owner)
                  (λ r s. owned_by-IsInDirectory sha256 path owner r there s) rs seedable);
            live = kept.live;
          },
          refl,
        )

  -- What one part of the loops does to the state.
  abbrev pub Keeps : PlanState → PlanState → List (Text × Text) → Type 0
  Keeps st st' new = IsKept st' × (st'.skipped ≡ st.skipped ++ new)

  add_unseen-Keeps :
      (seen : Bool) (owner path : Text) (st st' : PlanState)
      → before_slash path ≡ some owner
      → listed owner st.owners ≡ true
      → IsKept st
      → add_unseen sha256 read entries seen owner path st ≡ ok st'
      → IsKept st' × (st'.skipped ≡ st.skipped)
  add_unseen-Keeps true owner path st st' there here kept h =
      subst (λ (s : PlanState). IsKept s × (s.skipped ≡ st.skipped)) (ok_inj h) (kept, refl)
  add_unseen-Keeps false owner path st st' there here kept h =
      add_file-IsKept owner path st st' there here kept h

  plan_path-Keeps :
      (path : Text) (st st' : PlanState)
      → IsKept st
      → plan_path sha256 read entries path st ≡ ok st'
      → IsKept st' × (st'.skipped ≡ st.skipped)
  unfolding plan_path
  plan_path-Keeps path st st' kept h =
      let (owner, owned, h₁) = >>=-eq-ok (owning_spec_of path) _ h in
      let (entry, found, h₂) =
        >>=-eq-ok (or_throw no_registry_entry (find_entry owner entries)) _ h₁ in
      let (available, h₃) = throw_if-eq-ok (is_some entry.unavailable) quarantined _ h₂ in
      let live : IsLive owner = (entry, or_throw-eq-ok no_registry_entry _ found, available) in
      add_unseen-Keeps (listed path st.seen_files) owner path
        (record st { owners = set_add owner st.owners }) st'
        (owner_or_throw-eq-ok (before_slash path) (unfold owning_spec_of in owned))
        (listed-set_add_self owner st.owners)
        (record {
          referenced =
              All-imp _ _ (λ (r : PlannedRule) l. listed-set_add r.spec_id owner st.owners l)
                st.rules kept.referenced;
          placed = kept.placed;
          live = All-set_add IsLive owner st.owners live kept.live;
        })
        h₃

  plan_paths-Keeps :
      (paths : List Text) (st st' : PlanState)
      → IsKept st
      → plan_paths sha256 read entries paths st ≡ ok st'
      → IsKept st' × (st'.skipped ≡ st.skipped)
  unfolding plan_paths
  plan_paths-Keeps [] st st' kept h =
      subst (λ (s : PlanState). IsKept s × (s.skipped ≡ st.skipped)) (ok_inj h) (kept, refl)
  plan_paths-Keeps (path ∷ paths) st st' kept h =
      let (between, first, rest) = >>=-eq-ok (plan_path sha256 read entries path st) _ h in
      let (kept₁, same₁) = plan_path-Keeps path st between kept first in
      let (kept₂, same₂) = plan_paths-Keeps paths between st' kept₁ rest in (kept₂, same₂ ∙ same₁)

  plan_entry-Keeps :
      (e : RegistryEntry) (reason : Option Text) (st st' : PlanState)
      → IsKept st
      → plan_entry sha256 read entries e reason st ≡ ok st'
      → Keeps st st' (reasons e reason)
  plan_entry-Keeps e none st st' kept h =
      let (kept', same) = plan_paths-Keeps e.schematron st st' kept h in
      (kept', same ∙ sym (append-nil st.skipped))
  plan_entry-Keeps e (some reason) st st' kept h =
      subst (λ (s : PlanState). Keeps st s ((e.spec_id, reason) ∷ [])) (ok_inj h)
        (record { referenced = kept.referenced; placed = kept.placed; live = kept.live }, refl)

  pub plan_entries-Keeps :
      (es : List RegistryEntry) (st st' : PlanState)
      → IsKept st
      → plan_entries sha256 read entries es st ≡ ok st'
      → Keeps st st' (unavailable_among es)
  unfolding plan_entries unavailable_among
  plan_entries-Keeps [] st st' kept h =
      subst (λ (s : PlanState). Keeps st s []) (ok_inj h) (kept, sym (append-nil st.skipped))
  plan_entries-Keeps (e ∷ es) st st' kept h =
      let (between, first, rest) =
        >>=-eq-ok (plan_entry sha256 read entries e e.unavailable st) _ h in
      let (kept₁, same₁) = plan_entry-Keeps e e.unavailable st between kept first in
      let (kept₂, same₂) = plan_entries-Keeps es between st' kept₁ rest in
      (
        kept₂,
        same₂
            ∙ ap (λ t. t ++ unavailable_among es) same₁
            ∙ append_assoc st.skipped (reasons e e.unavailable) (unavailable_among es),
      )
