-- ===== src/Workflow/Revision/Existing.antt =====
-- internal/domain/workflow/revision.go: when `BuildRevision` returns a revision.
use req_flow.Prelude.{
  String, Bool, true, false, List, [], Option, some, ◌≡◌, refl, eqb, is_blank, trim_space, ok,
  is_ok,
}
use req_flow.Json.{RawMessage}
use req_flow.Workflow.Model.{
  Time, CapabilityRef, CapabilityDefinition, WorkflowDraft, RuleBundle, ResolvedNode,
}
use req_flow.Workflow.Catalog.{new_static_catalog, lookup_capability}
use req_flow.Workflow.Order.{linear_order}
use req_flow.Workflow.Validate.Issues.{publish_mode, has_errors}
use req_flow.Workflow.Validate.Index.{Catalog, index_definition}
use req_flow.Workflow.Validate.Decisions.{validate, validate_decisions}
use req_flow.Workflow.Validate.Publication.{
  decisions-of-rules, NoErrors-of-validate, validate-IsPublishable,
}
use req_flow.Workflow.Validate.Ordered.{validate-linear_order}
use req_flow.Workflow.Revision.Defs.{
  RevisionContent, index_by_id, resolve_all, content_of, build_revision,
}
use req_flow.Workflow.Revision.Written.{
  IsWritableCapability, AreWritableRules, IsWritable, HasWritableParts, rules-AreWritable,
  content_of-IsWritable,
}
use req_flow.Workflow.Revision.Resolved.{resolve_all-resolved, resolve_all-total}
use req_flow.Workflow.Revision.Built.{order-within}

-- What `BuildRevision` asks of its caller besides the draft.
abbrev pub IsGiven : String → String → Time → Type 0
IsGiven revision_id published_by published_at =
    (is_blank (trim_space revision_id) ≡ false)
    × (is_blank (trim_space published_by) ≡ false)
    × (eqb published_at 0 ≡ false)

module _ (valid_config : CapabilityDefinition → RawMessage → Bool) (regex_compiles : String → Bool)
    (copy_rules : RuleBundle → Option RuleBundle) (hash : RevisionContent → Option String)
    (find_capability : CapabilityRef → Option CapabilityDefinition) where
  build_revision-total :
      (draft : WorkflowDraft) (revision_id published_by : String) (published_at : Time)
      (order : List String) (nodes : List ResolvedNode) (rules : RuleBundle) (content_hash : String)
      → has_errors (validate valid_config regex_compiles draft (some find_capability) publish_mode)
        ≡ false
      → IsGiven revision_id published_by published_at
      → linear_order draft ≡ ok order
      → resolve_all find_capability (index_by_id draft.nodes []) order ≡ ok nodes
      → copy_rules draft.rules ≡ some rules
      → hash (content_of draft nodes rules) ≡ some content_hash
      → is_ok (
          build_revision valid_config regex_compiles copy_rules hash find_capability draft
            revision_id published_by published_at)
        ≡ true
  unfolding build_revision
  build_revision-total draft revision_id published_by published_at order nodes rules content_hash
        clean (named, by, timed) found resolving copied hashed =
      rw (build_revision, clean, named, by, timed, found, resolving, copied, hashed) refl

decisions-clean :
    (valid_config : CapabilityDefinition → RawMessage → Bool) (regex_compiles : String → Bool)
    (draft : WorkflowDraft) (catalog : Catalog)
    → has_errors (validate valid_config regex_compiles draft catalog publish_mode) ≡ false
    → has_errors (validate_decisions publish_mode draft.rules) ≡ false
decisions-clean valid_config regex_compiles draft catalog clean =
    decisions-of-rules regex_compiles draft.rules
      (index_definition valid_config draft catalog publish_mode).capabilities
      (NoErrors-of-validate valid_config regex_compiles draft catalog publish_mode clean).rules

-- `BuildRevision` returns a revision of every draft that is accepted for a publication: neither the linear order nor the
-- lookup of a capability nor the JSON of the content fails then. The catalog is one that `NewStaticCatalog` built, the
-- identifier, the publisher and the time are given, every configuration of the draft and every schema and default of the
-- catalog is a JSON document or is left out, and no year has more than four digits; rules that can be written to JSON are
-- copied to such rules, and content that can be written is hashed.
pub build_revision-exists :
    (valid_schema decodes_object : RawMessage → Bool)
    (valid_config : CapabilityDefinition → RawMessage → Bool) (regex_compiles : String → Bool)
    (copy_rules : RuleBundle → Option RuleBundle) (hash : RevisionContent → Option String)
    (definitions : List CapabilityDefinition) (built : List (String × CapabilityDefinition))
    (draft : WorkflowDraft) (revision_id published_by : String) (published_at : Time)
    → new_static_catalog valid_schema valid_config decodes_object definitions ≡ ok built
    → has_errors
        (validate valid_config regex_compiles draft (some (lookup_capability built)) publish_mode)
      ≡ false
    → IsGiven revision_id published_by published_at
    → HasWritableParts draft
    → ((ref : CapabilityRef) (capability : CapabilityDefinition)
        → lookup_capability built ref ≡ some capability
        → IsWritableCapability capability)
    → ((rules : RuleBundle)
        → AreWritableRules rules
        → (copied : RuleBundle) × (copy_rules rules ≡ some copied) × AreWritableRules copied)
    → ((content : RevisionContent)
        → IsWritable content
        → (text : String) × (hash content ≡ some text))
    → is_ok (
        build_revision valid_config regex_compiles copy_rules hash
          (lookup_capability built)
          draft
          revision_id
          published_by
          published_at)
      ≡ true
build_revision-exists valid_schema decodes_object valid_config regex_compiles copy_rules hash
      definitions built draft revision_id published_by published_at b clean g parts capabilities
      copies hashes =
    let find_capability = lookup_capability built in
    let (order, found, spec) =
      validate-linear_order valid_schema decodes_object valid_config regex_compiles definitions
        built draft b clean in
    let p = validate-IsPublishable valid_config regex_compiles draft (some find_capability) clean in
    let within = order-within draft order found in
    let (nodes, resolving) =
      resolve_all-total find_capability draft.nodes valid_config order within p.nodes_usable in
    let (_, each) = resolve_all-resolved find_capability draft.nodes order within resolving in
    let (rules, copied, ruled) = copies draft.rules (
      rules-AreWritable draft.rules
        (decisions-clean valid_config regex_compiles draft (some find_capability) clean) parts.1) in
    let (text, hashed) = hashes (content_of draft nodes rules) (
      content_of-IsWritable find_capability capabilities draft nodes rules parts p.cases_passed each
        ruled) in
    build_revision-total valid_config regex_compiles copy_rules hash find_capability draft
      revision_id published_by published_at order nodes rules text clean g found resolving copied
      hashed
