-- ===== src/Registration/Manifests.antt =====
-- platform-plugins/data-postgres/src/registry_validation.rs: `validate_manifest`. The schema catalogue
-- belongs to another crate and is a parameter. A set is the list of its members, the last first.
pub mod Paths
pub mod Sets
pub mod Laws
pub mod Namespaces
use masonwing.Prelude.{
  ℕ, zero, suc, ◌+◌, ◌-◌, ◌*◌, ◌/◌, ◌%◌, ◌^◌, ◌≤◌, ◌<◌, String, ◌≡◌, refl, sym, ap, ap₂, subst, ◌∙◌,
  ◌≢◌, ◌↔◌, ◌⊎◌, inl, inr, Bool, true, false, not, ◌&&◌, ◌||◌, Option, none, some, List, [], ◌∷◌,
  ◌++◌, map, append_assoc, append-nil, arith, ℕ_discrete, dec_le, ℤ, pos, negsuc, pos_part,
  neg_part, ltb_ℤ, leb_ℤ, ◌≤ℤ◌, ◌<ℤ◌, eq_ℤ, suc_ℤ, suc_ℤ_parts, eq_ℤ_iff, length, drop,
  length-append, All, Any, map_insert, map_get, map_get-insert, Result, ok, err, ◌>>=◌, ◌>>◌, guard,
  ok_or, bind_ok, ok-injective, contains, is_subset, contains_subset, is_subset_iff,
  contains-append, contains-singleton, is_subset_mono, contains-head, contains-tail, ltb, leb, ◌==◌,
  if◌then◌else◌, ==_iff, Bool-cases, Option-cases, Text, text, text_eq, text_eq_iff, text_eq_refl,
}
use masonwing.Contracts.Wire.{
  ArtifactRef, HandlerContract, ToolDescriptor, UiContribution, PluginManifest,
}
use masonwing.Kernel.Runtime.Failure.{CommandFailure, not_found}
use masonwing.Registration.Failures.{
  manifest_invalid, catalog_invalid, contract_unsupported, config_unsupported, scope_denied,
}

-- `collect` into a set.
unfoldable pub collect : List Text → List Text → List Text
unfolding contains
collect set [] = set
collect set (a ∷ rest) = collect (if contains set a then set else (a ∷ set)) rest

abbrev pub is_of_tenant : Text → ArtifactRef → Bool
unfolding text_eq
is_of_tenant tenant a = text_eq a.tenant_id tenant

-- The loop over the handlers.
unfoldable pub handlers_fit :
    List Text → Text → List Text → List HandlerContract → Result (Unit {0}) CommandFailure
unfolding contains is_subset
handlers_fit requested tenant seen [] = ok tt
handlers_fit requested tenant seen (h ∷ rest) =
    guard (not (contains seen h.id) && is_subset h.required_capabilities requested) scope_denied
    >>= λ _.
        guard (is_of_tenant tenant h.input_schema_ref && is_of_tenant tenant h.output_schema_ref)
          not_found
        >>= λ _. handlers_fit requested tenant (h.id ∷ seen) rest

-- The loop over the tools.
unfoldable pub tools_fit :
    List Text → Text → List Text → List ToolDescriptor → Result (Unit {0}) CommandFailure
unfolding contains
tools_fit requested tenant seen [] = ok tt
tools_fit requested tenant seen (t ∷ rest) =
    guard (not (contains seen t.id) && contains requested t.action) scope_denied >>= λ _.
    guard (is_of_tenant tenant t.input_schema_ref && is_of_tenant tenant t.output_schema_ref)
      not_found
    >>= λ _. tools_fit requested tenant (t.id ∷ seen) rest

unfoldable pub all_of_tenant : Text → List ArtifactRef → Bool
all_of_tenant tenant [] = true
all_of_tenant tenant (a ∷ rest) = is_of_tenant tenant a && all_of_tenant tenant rest

unfoldable pub starts_with : Text → Text → Bool
starts_with [] path = true
starts_with (a ∷ prefix) [] = false
starts_with (a ∷ prefix) (b ∷ path) = a == b && starts_with prefix path

-- The bytes that a path must not hold.
unfoldable pub is_excluded : ℕ → Bool
is_excluded b = leb b 32 || b == b'%' || b == b'\\' || b == b'?' || b == b'#'

unfoldable pub any_excluded : Text → Bool
unfolding is_excluded
any_excluded [] = false
any_excluded (b ∷ path) = is_excluded b || any_excluded path

-- `split('/')`: the first part and the others.
unfoldable pub split_slash : Text → Text × List Text
split_slash [] = ([], [])
split_slash (b ∷ path) =
    let (part, parts) = split_slash path in
    if b == b'/' then ([], part ∷ parts) else (b ∷ part, parts)

abbrev dots : List Text
dots = text "." ∷ text ".." ∷ []

unfoldable pub any_dots : List Text → Bool
unfolding contains
any_dots [] = false
any_dots (part ∷ parts) = contains dots part || any_dots parts

-- Whether the byte begins `//` with the path behind it.
abbrev doubles : ℕ → Text → Bool
doubles a [] = false
doubles a (b ∷ _) = a == b'/' && b == b'/'

unfoldable pub has_double_slash : Text → Bool
has_double_slash [] = false
has_double_slash (a ∷ path) = doubles a path || has_double_slash path

unfoldable pub has_location : List (Text × Text) → Text → Text → Bool
unfolding text_eq
has_location [] path slot = false
has_location ((p, s) ∷ rest) path slot =
    (text_eq p path && text_eq s slot) || has_location rest path slot

abbrev pub all_parts : Text × List Text → List Text
all_parts (part, parts) = part ∷ parts

-- The tests of a path.
unfoldable pub path_fits : Text → Text → Bool
unfolding starts_with any_excluded split_slash any_dots has_double_slash
path_fits prefix path =
    starts_with prefix path
    && leb (length path) 1024
    && not (any_excluded path)
    && not (any_dots (all_parts (split_slash path)))
    && not (has_double_slash path)

abbrev pub prefix_of : Text → Text
prefix_of id = text "/plugins/" ++ id ++ b'/' ∷ []

-- The loop over the contributions.
unfoldable pub ui_fit :
    List Text → Text → List Text → List (Text × Text) → List UiContribution → Bool
unfolding path_fits has_location contains text_eq
ui_fit known prefix contributions locations [] = true
ui_fit known prefix contributions locations (ui ∷ rest) =
    not (contains contributions ui.id)
    && not (has_location locations ui.path ui.slot)
    && path_fits prefix ui.path
    && contains known ui.required_action
    && text_eq ui.ui_contract_version (text "1.0.0")
    && ui_fit known prefix (ui.id ∷ contributions) ((ui.path, ui.slot) ∷ locations) rest

module _ (catalog_valid : Bool) (schema_valid : PluginManifest → Bool) where
  unfoldable pub validate_manifest :
      PluginManifest → Text → List Text → Result (Unit {0}) CommandFailure
  unfolding collect is_subset handlers_fit tools_fit all_of_tenant ui_fit text_eq
  validate_manifest manifest tenant known =
      let requested = collect [] manifest.requested_capabilities in
      guard catalog_valid catalog_invalid >>= λ _.
      guard (schema_valid manifest) manifest_invalid >>= λ _.
      guard (text_eq manifest.contract_version (text "1.0.0")) contract_unsupported >>= λ _.
      guard (length requested == length manifest.requested_capabilities) manifest_invalid >>= λ _.
      guard (is_subset requested known) config_unsupported >>= λ _.
      handlers_fit requested tenant [] manifest.handlers >>= λ _.
      tools_fit requested tenant [] manifest.tools >>= λ _.
      guard (all_of_tenant tenant (manifest.workflows ++ manifest.data_contracts)) not_found
      >>= λ _. guard (ui_fit known (prefix_of manifest.id) [] [] manifest.ui) scope_denied
