-- ===== src/Lib.antt =====
-- ReqFlow: the workflow core of the repository, internal/domain/workflow.
--
-- A workflow draft is a set of nodes, each of which names a capability of a catalog, of connections between their
-- ports, and of rules. A person or an agent edits it in a design session; it is validated for a preview or for a
-- publication, and a published revision runs its nodes in their linear order.
--
-- Prelude: Go's texts, maps, integers and errors. A text is a sequence of code points; an int64 is an integer without
--   a width but where it is incremented; a map is an association list, newest key last.
-- Json: JSON values and json.RawMessage, by what the program can learn of the bytes.
-- Workflow.Model: internal/domain/workflow/model.go, the data. A string type with named constants is a data type
--   with one more constructor for any other text. A float64 is a count of millionths: the program only compares them.
--   A time is a number, 0 for the zero time.
-- Workflow.Catalog: internal/domain/workflow/catalog.go, `NewStaticCatalog` with the checks of a capability,
--   `Lookup` and `Definitions`. `validateConfigSchema`, `ValidateCapabilityConfig` and the decoding of an object are
--   parameters.
-- Workflow.Order: internal/domain/workflow/revision.go, `LinearOrder`, loop by loop. The walk along the chain runs on
--   fuel, one round more than there are nodes.
-- Workflow.Revision: the same file, `BuildRevision`. The hash of a content and the copy of the rules are parameters.
-- Workflow.Contracts: internal/domain/workflow/contracts.go, the JSON Schema that a data or an output contract is
--   compiled to. `json.Marshal` and the SHA-256 of its bytes are parameters.
-- Workflow.Session: internal/domain/workflow/design_session.go, the methods of a design session as functions to a
--   result, and series of calls in which a refused call changes nothing.
-- Workflow.Validate: internal/domain/workflow/validate.go, every check of a draft as a function to the issues that it
--   adds. `ValidateCapabilityConfig` and `regexp.Compile` are parameters. The messages of issues are left out: no
--   code reads them. The walk of the topology check runs on fuel, two rounds more than there are edges.
-- Workflow.Editor: internal/app/workflow/draft_editor.go, every command of `DraftEditor` as a function from a draft to
--   the edited draft or an error; an error leaves the draft as it was. The copy through JSON (`cloneDraft`),
--   `ValidateCapabilityConfig`, `regexp.Compile` and the equality of raw messages are parameters; that the copy equals
--   the draft, but for the bytes of raw messages, is a hypothesis. The revision is an int64 and wraps around.
-- Workflow.Run: internal/domain/workflow/runtime.go, a run of a published revision, the runs of its nodes, and the
--   moves between statuses that the methods of a run make.
-- Workflow.RunStore: internal/infra/repository/workflow_runtime_repo.go, the transactions that change runs and node
--   runs, on the tables of migration 0005 as lists of rows, one transaction behind the other. Errors of the database
--   are left out; `uuid.NewString` and the rows that other transactions hold are parameters, and so is the time.
--
-- Each part has a module Examples with runs of the definitions on concrete data.
--
-- Not modelled: config_schema.go and `HashContract` of the same package; the messages of errors; `CreateWorkflowRun`
-- and the queries of the run repository; the services, other repositories, parsers, clients and the user interface
-- around the core (internal/app, internal/infra, web), which are mostly input and output.
pub mod Json
pub mod Prelude
pub mod Workflow
