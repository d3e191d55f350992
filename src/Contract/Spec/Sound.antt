-- ===== src/Contract/Spec/Sound.antt =====
-- internal/executioncontract/contract.go: what `ParseSpec` promises of its result.
use c_panel_self_migration.Prelude.{
  ℕ, zero, suc, ◌<◌, Bool, true, false, not, ◌||◌, List, [], ◌∷◌, Bytes, lit, eqb_iff, is_empty,
  Option, none, some, ok, err, bind-eq-ok, ◌≡◌, refl, arith, all, ◌⊎◌, inl, inr, Result-cases,
}
use c_panel_self_migration.Json.{Json, obj, num, Fields, lookup, keys, end, field}
use c_panel_self_migration.Strconv.{ℤ, pos, negsuc, parse_int, int64_limit, signed, read_nat}
use c_panel_self_migration.Events.{current_format_version, validate_run_id}
use c_panel_self_migration.Contract.{
  Problem, optional_string, integer_at, positive, is_in, require_positive_int, reject_unknown,
  check_run_id,
}
use c_panel_self_migration.Contract.Spec.{
  SpecScope, ExecutionSpec, spec_mode_dry_run, spec_top_keys, spec_scope_keys, is_blank,
  reject_blank_filter, scope_at, parse_scope, parse_spec_map,
}

-- A filter is absent, and then reads as empty, or has a byte that is not blank.
abbrev pub IsFilter : Bytes → Type 0
IsFilter f = (is_empty f || not (is_blank f)) ≡ true

pub record IsScope (s : SpecScope) : Type 0 where
  pub some_area : (s.mail || s.files || s.databases) ≡ true
  pub domain_filter_ok : IsFilter s.domain_filter
  pub mailbox_filter_ok : IsFilter s.mailbox_filter
  pub mailbox_needs_mail : (is_empty s.mailbox_filter || s.mail) ≡ true
  pub domain_needs_flow : (is_empty s.domain_filter || s.mail || s.files) ≡ true

abbrev pub IsId : ℕ → Type 0
IsId n = (0 < n) × (n < int64_limit)

pub record IsSpec (s : ExecutionSpec) : Type 0 where
  pub version_ok : s.format_version ≡ current_format_version
  pub run_id_ok : validate_run_id s.run_id ≡ ok tt
  pub plan_ok : IsId s.plan_id
  pub source_ok : IsId s.source_snapshot_id
  pub destination_ok : IsId s.destination_snapshot_id
  pub report_ok : IsId s.comparison_report_id
  pub mode_ok : s.mode ≡ spec_mode_dry_run
  pub scope_ok : IsScope s.scope

signed-lt : (neg : Bool) (o : Option ℕ) (n : ℕ) → signed neg o ≡ some (pos n) → n < int64_limit
signed-lt neg none n h = ground arith
signed-lt false (some k) n h = ground arith
signed-lt true (some zero) n h = ground arith
signed-lt true (some (suc k)) n h = ground arith

parse_int-lt : (s : Bytes) (n : ℕ) → parse_int s ≡ some (pos n) → n < int64_limit
unfolding parse_int
parse_int-lt [] n h = ground arith
parse_int-lt (c ∷ s) n h = ground (
  arith,
  signed-lt true (read_nat s) n,
  signed-lt false (read_nat s) n,
  signed-lt false (read_nat (c ∷ s)) n,
)

integer_at-lt :
    (key : Bytes) (o : Option Json) (n : ℕ) → integer_at key o ≡ ok (pos n) → n < int64_limit
integer_at-lt key none n h = ground arith
integer_at-lt key (some (num t)) n h = ground (arith, parse_int-lt t n)
integer_at-lt key (some _) n h = ground arith

pub require_positive_int-IsId :
    (m : Fields) (key : Bytes) (n : ℕ) → require_positive_int m key ≡ ok n → IsId n
unfolding require_positive_int
require_positive_int-IsId m key n h =
    let (z, e, p) = bind-eq-ok (integer_at key (lookup key m)) (positive key) h in sign z e p
  where
    sign : (z : ℤ) → integer_at key (lookup key m) ≡ ok z → positive key z ≡ ok n → IsId n
    sign (pos k) e p = ground (arith, integer_at-lt key (lookup key m) k e)
    sign (negsuc k) e p = ground arith

-- A filter that the two tests let through.
optional_string-IsFilter :
    (scope : Fields) (label key f : Bytes)
    → optional_string scope label key ≡ ok f
    → reject_blank_filter scope key f ≡ ok tt
    → IsFilter f
unfolding optional_string reject_blank_filter
optional_string-IsFilter scope label key f h k = ground arith

parse_scope-IsScope : (m : Fields) {s : SpecScope} → parse_scope m ≡ ok s → IsScope s
unfolding parse_scope
parse_scope-IsScope m {s} h = ground (
  arith,
  optional_string-IsFilter m (lit "scope.domain_filter") (lit "domain_filter") s.domain_filter,
  optional_string-IsFilter m (lit "scope.mailbox_filter") (lit "mailbox_filter") s.mailbox_filter,
)

check_run_id-ok : (id : Bytes) → check_run_id id ≡ ok tt → validate_run_id id ≡ ok tt
unfolding check_run_id
check_run_id-ok id h = ground arith

-- The value of a map that a test has found to be an object.
scope_at-obj : (o : Option Json) (scope : Fields) → scope_at o ≡ ok scope → o ≡ some (obj scope)
scope_at-obj o scope h = ground arith

-- The scope of an accepted document is an object that parses by itself.
record ScopeOf (m : Fields) (s : ExecutionSpec) : Type 0 where
  raw : Fields
  found : lookup (lit "scope") m ≡ some (obj raw)
  parsed_ok : parse_scope raw ≡ ok s.scope

parse_spec_map-ScopeOf : (m : Fields) {s : ExecutionSpec} → parse_spec_map m ≡ ok s → ScopeOf m s
unfolding parse_spec_map
parse_spec_map-ScopeOf m {s} h = elim (scope_result m) [
  | inl (raw, e) ↦ record { raw = raw; found = scope_at-obj _ raw e; parsed_ok = ground arith }
  | inr (p, e) ↦ absurd (ground arith)
]
  where
    scope_result :
        (m : Fields)
        → ((raw : Fields) × (scope_at (lookup (lit "scope") m) ≡ ok raw))
          ⊎ ((p : Problem) × (scope_at (lookup (lit "scope") m) ≡ err p))
    scope_result m = Result-cases (scope_at (lookup (lit "scope") m))

-- A document that is accepted gives a well-formed specification.
pub parse_spec_map-IsSpec : (m : Fields) {s : ExecutionSpec} → parse_spec_map m ≡ ok s → IsSpec s
unfolding parse_spec_map
parse_spec_map-IsSpec m {s} h = ground (
  arith,
  check_run_id-ok s.run_id,
  require_positive_int-IsId m (lit "plan_id") s.plan_id,
  require_positive_int-IsId m (lit "source_snapshot_id") s.source_snapshot_id,
  require_positive_int-IsId m (lit "destination_snapshot_id") s.destination_snapshot_id,
  require_positive_int-IsId m (lit "comparison_report_id") s.comparison_report_id,
  eqb_iff s.mode spec_mode_dry_run,
  scope_ok,
)
  where
    scope_ok : IsScope s.scope
    scope_ok =
        let found = parse_spec_map-ScopeOf m h in parse_scope-IsScope found.raw found.parsed_ok

-- No field of an accepted document is unknown, at the top or in its scope.
reject_unknown-all :
    (m : Fields) (allowed : List Bytes) (prefix : Bytes)
    → reject_unknown m allowed prefix ≡ ok tt
    → all (is_in allowed) (keys m) ≡ true
unfolding reject_unknown
reject_unknown-all end allowed prefix h = refl
reject_unknown-all (field k v m) allowed prefix h =
    ground (arith, reject_unknown-all m allowed prefix)

-- A document that ParseSpec accepts has no field outside the known keys at the top, and its scope
-- is an object with no field outside the known scope keys.
pub parse_spec_map-keys :
    (m : Fields) {s : ExecutionSpec}
    → parse_spec_map m ≡ ok s
    → (all (is_in spec_top_keys) (keys m) ≡ true)
      × ((scope : Fields) × (lookup (lit "scope") m ≡ some (obj scope))
          × (all (is_in spec_scope_keys) (keys scope) ≡ true))
unfolding parse_spec_map
parse_spec_map-keys m {s} h =
    let found = parse_spec_map-ScopeOf m h in
    (
      ground (arith, reject_unknown-all m spec_top_keys []),
      (found.raw, found.found, scope_keys found),
    )
  where
    scope_keys : (found : ScopeOf m s) → all (is_in spec_scope_keys) (keys found.raw) ≡ true
    scope_keys found =
        unfold parse_scope in
        ground (arith, found.parsed_ok, reject_unknown-all found.raw spec_scope_keys (lit "scope."))
