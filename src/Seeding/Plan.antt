-- ===== src/Seeding/Plan.antt =====
-- packages/db/scripts/seed-rules.ts, buildPlan: which rules of which specifications are seeded. `read`
-- stands for the file system and the parser.
pub mod Loop
pub mod Keys
pub mod Tests
use compliance_data_layer.Base.{
  ℕ, ◌≡◌, Bool, true, false, ◌||◌, List, [], ◌∷◌, ◌++◌, map, any, Option, none, some, is_some,
  Result, ok, err, ◌>>=◌, ◌>>◌, throw_if, ◌==◌, if◌then◌else◌,
}
use compliance_data_layer.Base.Texts.{Text, text_eq, text_lt, is_empty}
use compliance_data_layer.Seeding.Extract.{
  Nodes, ExtractedRule, UnseedableRule, extract_rules, walk, or_throw,
}

pub record RegistryEntry : Type 0 where
  pub spec_id : Text
  pub jurisdiction : Text
  pub version : Text
  pub schematron : List Text
  pub unavailable : Option Text

pub record PlannedRule : Type 0 where
  pub spec_id : Text
  pub extracted : ExtractedRule

pub record PlannedSpecification : Type 0 where
  pub spec_id : Text
  pub jurisdiction : Text
  pub name : Text
  pub version : Text

pub record SeedPlan : Type 0 where
  pub specifications : List PlannedSpecification
  pub rules : List PlannedRule
  pub skipped : List (Text × Text)

pub data PlanError : Type 0 where
  no_leading_directory no_registry_entry quarantined duplicate_rule_ids : PlanError
  unseedable : UnseedableRule → PlanError

-- The variables of the loops.
pub record PlanState : Type 0 where
  pub skipped : List (Text × Text)
  pub owners : List Text
  pub seen_files : List Text
  pub rules : List PlannedRule

abbrev pub cons_to : ℕ → Option Text → Option Text
cons_to c none = none
cons_to c (some s) = some (c ∷ s)

-- What stands before the first slash, if there is one.
unfoldable pub before_slash : Text → Option Text
before_slash [] = none
before_slash (c ∷ s) = if c == b'/' then some [] else cons_to c (before_slash s)

abbrev pub owner_or_throw : Option Text → Result PlanError Text
owner_or_throw none = err no_leading_directory
owner_or_throw (some []) = err no_leading_directory
owner_or_throw (some (c ∷ s)) = ok (c ∷ s)

unfoldable pub owning_spec_of : Text → Result PlanError Text
unfolding before_slash
owning_spec_of path = owner_or_throw (before_slash path)

-- `byId.get`: of two entries with one id the map keeps the last.
unfoldable pub find_entry : Text → List RegistryEntry → Option RegistryEntry
find_entry id [] = none
find_entry id (e ∷ es) =
    let later = find_entry id es in
    if is_some later then later else if text_eq e.spec_id id then some e else none

abbrev pub listed : Text → List Text → Bool
listed k ks = any (λ j. text_eq j k) ks

-- `Set.add`
unfoldable pub set_add : Text → List Text → List Text
set_add k ks = if listed k ks then ks else ks ++ k ∷ []

abbrev pub seedable_or :
    Result UnseedableRule (List ExtractedRule) → Result PlanError (List ExtractedRule)
seedable_or (ok rs) = ok rs
seedable_or (err e) = err (unseedable e)

abbrev pub owned_by : Text → ExtractedRule → PlannedRule
owned_by owner r = record { spec_id = owner; extracted = r }

unfoldable pub has_duplicates : List Text → Bool
has_duplicates [] = false
has_duplicates (k ∷ ks) = listed k ks || has_duplicates ks

unfoldable pub insert_sorted : Text → List Text → List Text
insert_sorted k [] = k ∷ []
insert_sorted k (j ∷ js) = if text_lt j k then j ∷ insert_sorted k js else k ∷ j ∷ js

-- `[...owners].sort()`
unfoldable pub sort : List Text → List Text
unfolding insert_sorted
sort [] = []
sort (k ∷ ks) = insert_sorted k (sort ks)

abbrev pub specification_of : Text → RegistryEntry → PlannedSpecification
specification_of id e = record {
  spec_id = id;
  jurisdiction = e.jurisdiction;
  name = id;
  version = e.version;
}

abbrev pub rule_ids : List PlannedRule → List Text
rule_ids rs = map (λ (r : PlannedRule). r.extracted.rule_id) rs

abbrev pub start : PlanState
start = record { skipped = []; owners = []; seen_files = []; rules = [] }

module _ (sha256 : Text → Text) (read : Text → Nodes) (entries : List RegistryEntry) where
  abbrev pub add_file : Text → Text → PlanState → Result PlanError PlanState
  add_file owner path st = do
    rs ← seedable_or (extract_rules sha256 path (read path))
    ok (record st {
      seen_files = set_add path st.seen_files;
      rules = st.rules ++ map (owned_by owner) rs;
    })

  abbrev pub add_unseen : Bool → Text → Text → PlanState → Result PlanError PlanState
  add_unseen true owner path st = ok st
  add_unseen false owner path st = add_file owner path st

  -- One round of the loop over the files of an entry.
  unfoldable pub plan_path : Text → PlanState → Result PlanError PlanState
  unfolding owning_spec_of find_entry set_add
  plan_path path st = do
    owner ← owning_spec_of path
    entry ← or_throw no_registry_entry (find_entry owner entries)
    throw_if (is_some entry.unavailable) quarantined
    add_unseen (listed path st.seen_files) owner path
        (record st { owners = set_add owner st.owners })

  unfoldable pub plan_paths : List Text → PlanState → Result PlanError PlanState
  unfolding plan_path
  plan_paths [] st = ok st
  plan_paths (path ∷ paths) st = do st' ← plan_path path st; plan_paths paths st'

  abbrev pub plan_entry : RegistryEntry → Option Text → PlanState → Result PlanError PlanState
  plan_entry e (some reason) st =
      ok (record st { skipped = st.skipped ++ (e.spec_id, reason) ∷ [] })
  plan_entry e none st = plan_paths e.schematron st

  unfoldable pub plan_entries : List RegistryEntry → PlanState → Result PlanError PlanState
  unfolding plan_paths
  plan_entries [] st = ok st
  plan_entries (e ∷ es) st = do st' ← plan_entry e e.unavailable st; plan_entries es st'

  unfoldable pub plan_specifications : List Text → Result PlanError (List PlannedSpecification)
  unfolding find_entry
  plan_specifications [] = ok []
  plan_specifications (id ∷ ids) = do
    entry ← or_throw no_registry_entry (find_entry id entries)
    rest ← plan_specifications ids
    ok (specification_of id entry ∷ rest)

  unfoldable pub build_plan : Result PlanError SeedPlan
  unfolding plan_entries has_duplicates sort plan_specifications
  build_plan = do
    st ← plan_entries entries start
    throw_if (has_duplicates (rule_ids st.rules)) duplicate_rule_ids
    specifications ← plan_specifications (sort st.owners)
    ok (record { specifications = specifications; rules = st.rules; skipped = st.skipped })
