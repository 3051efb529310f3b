-- ===== src/Registration/Manifests/Laws.antt =====
-- What an admitted manifest is (platform-plugins/data-postgres/src/registry_validation.rs).
use masonwing.Prelude.{
  ◌≡◌, sym, ◌∙◌, Bool, true, false, not, ◌&&◌, List, [], ◌∷◌, ◌++◌, map, arith, length, All, ok,
  bind_ok, guard_passed, guard_then, contains, is_subset, is_subset_iff, ◌==◌, Text, text, text_eq,
  text_eq_iff,
}
use masonwing.Contracts.Wire.{
  ArtifactRef, HandlerContract, ToolDescriptor, UiContribution, PluginManifest,
}
use masonwing.Registration.Failures.{
  manifest_invalid, catalog_invalid, contract_unsupported, config_unsupported, scope_denied,
}
use masonwing.Kernel.Runtime.Failure.{not_found}
use masonwing.Registration.Manifests.{
  collect, is_of_tenant, handlers_fit, tools_fit, all_of_tenant, has_location, prefix_of, ui_fit,
  validate_manifest,
}
use masonwing.Registration.Manifests.Paths.{IsConfined, path_fits-IsConfined}
use masonwing.Registration.Manifests.Sets.{
  AreDistinct, id_and_slot, split_new, collect-AreDistinct, contains-collect, both, of_tenant,
  all_of_tenant-append, new_location,
}

-- What is asked of the handlers, the tools and the contributions one by one.
module _ (m : PluginManifest) (tenant : Text) (known : List Text) where
  abbrev pub IsHandlerAdmitted : HandlerContract → Type 0
  IsHandlerAdmitted h =
      ((a : Text)
        → contains h.required_capabilities a ≡ true
        → contains m.requested_capabilities a ≡ true)
      × (h.input_schema_ref.tenant_id ≡ tenant)
      × (h.output_schema_ref.tenant_id ≡ tenant)

  abbrev pub IsToolAdmitted : ToolDescriptor → Type 0
  IsToolAdmitted t =
      (contains m.requested_capabilities t.action ≡ true)
      × (t.input_schema_ref.tenant_id ≡ tenant)
      × (t.output_schema_ref.tenant_id ≡ tenant)

  abbrev pub IsUiAdmitted : UiContribution → Type 0
  IsUiAdmitted ui =
      IsConfined m.id ui.path
      × (contains known ui.required_action ≡ true)
      × (ui.ui_contract_version ≡ text "1.0.0")

  -- A manifest asks for known capabilities only, once each; its handlers and tools need no other
  -- ones; its artifacts are of the tenant; its contributions lie in its own part of the paths.
  pub record IsAdmitted : Type 0 where
    pub contract : m.contract_version ≡ text "1.0.0"
    pub once : AreDistinct m.requested_capabilities
    pub requested :
        (a : Text) → contains m.requested_capabilities a ≡ true → contains known a ≡ true
    pub handlers : All IsHandlerAdmitted m.handlers
    pub handler_ids : AreDistinct (map (λ (h : HandlerContract). h.id) m.handlers)
    pub tools : All IsToolAdmitted m.tools
    pub tool_ids : AreDistinct (map (λ (t : ToolDescriptor). t.id) m.tools)
    pub workflows : All (λ (a : ArtifactRef). a.tenant_id ≡ tenant) m.workflows
    pub data_contracts : All (λ (a : ArtifactRef). a.tenant_id ≡ tenant) m.data_contracts
    pub ui : All IsUiAdmitted m.ui
    pub ui_ids : AreDistinct (map (λ (u : UiContribution). u.id) m.ui)
    pub locations : AreDistinct (map id_and_slot m.ui)

module _ (m : PluginManifest) (tenant : Text) (known : List Text) where
  abbrev asked : List Text
  asked = collect [] m.requested_capabilities

  asked_requested : (a : Text) → contains asked a ≡ contains m.requested_capabilities a
  unfolding contains
  asked_requested a = contains-collect [] m.requested_capabilities a

  handlers_fit-admitted :
      (seen : List Text) (hs : List HandlerContract)
      → handlers_fit asked tenant seen hs ≡ ok tt
      → All (IsHandlerAdmitted m tenant known) hs
        × All (λ id. contains seen id ≡ false) (map (λ (h : HandlerContract). h.id) hs)
        × AreDistinct (map (λ (h : HandlerContract). h.id) hs)
  unfolding handlers_fit
  handlers_fit-admitted seen [] e = (tt, tt, tt)
  handlers_fit-admitted seen (h ∷ rest) e =
      let (tests, e1) =
        guard_then (not (contains seen h.id) && is_subset h.required_capabilities asked)
          scope_denied _ e in
      let (tenants, e2) =
        guard_then
          (is_of_tenant tenant h.input_schema_ref && is_of_tenant tenant h.output_schema_ref)
          not_found _ e1 in
      let (all, fresh, distinct) = handlers_fit-admitted (h.id ∷ seen) rest e2 in
      let (others, later) = split_new h.id seen (map (λ (h : HandlerContract). h.id) rest) fresh in
      let needs : is_subset h.required_capabilities asked ≡ true = ground arith in
      let new : contains seen h.id ≡ false = ground arith in
      (
        (
          (
            λ a k.
                sym (asked_requested a) ∙ (is_subset_iff h.required_capabilities asked).0 needs a k,
            of_tenant tenant h.input_schema_ref (both tenants).0,
            of_tenant tenant h.output_schema_ref (both tenants).1,
          ),
          all,
        ),
        (new, later),
        (others, distinct),
      )

  tools_fit-admitted :
      (seen : List Text) (ts : List ToolDescriptor)
      → tools_fit asked tenant seen ts ≡ ok tt
      → All (IsToolAdmitted m tenant known) ts
        × All (λ id. contains seen id ≡ false) (map (λ (t : ToolDescriptor). t.id) ts)
        × AreDistinct (map (λ (t : ToolDescriptor). t.id) ts)
  unfolding tools_fit
  tools_fit-admitted seen [] e = (tt, tt, tt)
  tools_fit-admitted seen (t ∷ rest) e =
      let (tests, e1) =
        guard_then (not (contains seen t.id) && contains asked t.action) scope_denied _ e in
      let (tenants, e2) =
        guard_then
          (is_of_tenant tenant t.input_schema_ref && is_of_tenant tenant t.output_schema_ref)
          not_found _ e1 in
      let (all, fresh, distinct) = tools_fit-admitted (t.id ∷ seen) rest e2 in
      let (others, later) = split_new t.id seen (map (λ (t : ToolDescriptor). t.id) rest) fresh in
      let needs : contains asked t.action ≡ true = ground arith in
      let new : contains seen t.id ≡ false = ground arith in
      (
        (
          (
            sym (asked_requested t.action) ∙ needs,
            of_tenant tenant t.input_schema_ref (both tenants).0,
            of_tenant tenant t.output_schema_ref (both tenants).1,
          ),
          all,
        ),
        (new, later),
        (others, distinct),
      )

  ui_fit-admitted :
      (ids : List Text) (places : List (Text × Text)) (us : List UiContribution)
      → ui_fit known (prefix_of m.id) ids places us ≡ true
      → All (IsUiAdmitted m tenant known) us
        × (All (λ id. contains ids id ≡ false) (map (λ (u : UiContribution). u.id) us)
            × AreDistinct (map (λ (u : UiContribution). u.id) us))
        × (All (λ (u : UiContribution). has_location places u.path u.slot ≡ false) us
            × AreDistinct (map id_and_slot us))
  unfolding ui_fit
  ui_fit-admitted ids places [] e = (tt, (tt, tt), (tt, tt))
  ui_fit-admitted ids places (u ∷ rest) e =
      let (new_id, new_place, path, action, version, e1) = tests _ _ _ _ _ _ e in
      let (all, (fresh, distinct), (fresh', distinct')) =
        ui_fit-admitted (u.id ∷ ids) ((u.path, u.slot) ∷ places) rest e1 in
      let (others, later) = split_new u.id ids (map (λ (u : UiContribution). u.id) rest) fresh in
      let (others', later') = new_location u.path u.slot places rest fresh' in
      (
        (
          (
            path_fits-IsConfined m.id u.path path,
            action,
            (text_eq_iff u.ui_contract_version (text "1.0.0")).0 version,
          ),
          all,
        ),
        ((new_id, later), (others, distinct)),
        ((new_place, later'), (others', distinct')),
      )
    where
      tests :
          (a b c d e f : Bool)
          → (not a && not b && c && d && e && f) ≡ true
          → (a ≡ false) × (b ≡ false) × (c ≡ true) × (d ≡ true) × (e ≡ true) × (f ≡ true)
      tests a b c d e f k = ground arith

module _ (catalog_valid : Bool) (schema_valid : PluginManifest → Bool) where
  -- A manifest that passes the validation asks once each for known capabilities, and its handlers
  -- and tools need no others. Its artifacts and schemas are of the tenant. Its contributions lie
  -- under the prefix of the plugin, at paths of at most 1024 bytes, each above 32 and none of `%`,
  -- `\`, `?` and `#`, with no two slashes in a row and no part `.` or `..`. No two of its handlers,
  -- tools or contributions share an identifier, and no two contributions share path and slot.
  pub validate_manifest-IsAdmitted :
      (m : PluginManifest) (tenant : Text) (known : List Text)
      → validate_manifest catalog_valid schema_valid m tenant known ≡ ok tt
      → IsAdmitted m tenant known
  unfolding validate_manifest
  validate_manifest-IsAdmitted m tenant known h =
      let (_, h1) = guard_then catalog_valid catalog_invalid _ h in
      let (_, h2) = guard_then (schema_valid m) manifest_invalid _ h1 in
      let (contract, h3) =
        guard_then (text_eq m.contract_version (text "1.0.0")) contract_unsupported _ h2 in
      let (whole, h4) =
        guard_then (length (asked m tenant known) == length m.requested_capabilities)
          manifest_invalid _ h3 in
      let (requested, h5) =
        guard_then (is_subset (asked m tenant known) known) config_unsupported _ h4 in
      let (_, fits, h6) =
        bind_ok (handlers_fit (asked m tenant known) tenant [] m.handlers) _ tt h5 in
      let (_, tools, h7) = bind_ok (tools_fit (asked m tenant known) tenant [] m.tools) _ tt h6 in
      let (artifacts, h8) =
        guard_then (all_of_tenant tenant (m.workflows ++ m.data_contracts)) not_found _ h7 in
      let (handlers, _, handler_ids) = handlers_fit-admitted m tenant known [] m.handlers fits in
      let (ts, _, tool_ids) = tools_fit-admitted m tenant known [] m.tools tools in
      let (workflows, contracts) =
        all_of_tenant-append tenant m.workflows m.data_contracts artifacts in
      let (us, (_, ui_ids), (_, locations)) =
        ui_fit-admitted m tenant known [] [] m.ui
          (guard_passed (ui_fit known (prefix_of m.id) [] [] m.ui) scope_denied tt h8) in
      record {
        contract = (text_eq_iff m.contract_version (text "1.0.0")).0 contract;
        once = (collect-AreDistinct [] m.requested_capabilities (ground arith)).1;
        requested = λ a k.
            (is_subset_iff (asked m tenant known) known).0 requested a
              (asked_requested m tenant known a ∙ k);
        handlers = handlers;
        handler_ids = handler_ids;
        tools = ts;
        tool_ids = tool_ids;
        workflows = workflows;
        data_contracts = contracts;
        ui = us;
        ui_ids = ui_ids;
        locations = locations;
      }
