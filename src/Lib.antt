-- ===== src/Lib.antt =====
-- The admission webhooks and the controllers of the APPUiO Cloud agent, and what they are built on.
--
-- The agent answers admission requests of a cluster. Each webhook asks a skipper whether the request
-- is to be checked, reads the object and what it needs of the cluster, and returns a response: admit,
-- refuse, admit with a JSON patch, or fail. The ratio of requested memory to requested CPU is fetched
-- for a namespace, and warned of if it is below a limit, in the webhook's response and in the events of
-- a controller. Other controllers reconcile what the cluster holds: the groups with the teams and the
-- members of organizations in the control API, which is another cluster; the role bindings of new
-- namespaces; the quotas and the objects of a usage profile in the namespaces of organizations; the
-- default organization of a user; and the versions of the zone in the control API. The membership
-- that the organization webhook looks up is in the groups that GroupSync writes. At its start the
-- program reads its flags and its configuration, registers the webhooks and sets the controllers up as
-- these say, and makes its own user a privileged one; then it runs two managers until both have stopped.
--
-- Base: Go maps as association lists in the order of iteration, integers, texts and `strconv`.
-- Kube: errors, objects, requests and responses, and the libraries that the agent calls.
-- Skipper: skipper/skipper.go (Skip), skipper/privileged_user.go (Privileged) and
--   skipper/userinfo/userinfo.go (UserInfo).
-- Webhooks: one module for each file of webhooks/. Organization is
--   namespace_project_organization_mutator.go, Quota namespace_quota_validator.go, Metadata
--   namespace_metadata_validator.go, NodeSelector and Pointer pod_node_selector_mutator.go, RunOnce
--   pod_runonce_active_deadline_seconds_mutator.go, Reserved
--   reserved_resourcequota_limitrange_validator.go, ServiceLb service_cloudscale_lb_validator.go and
--   RequestRatio ratio_validator.go. In each, `handle` is the handler.
-- Controllers: RatioReconciler is controllers/ratio_controller.go; `reconcile` gives the error and the
--   events recorded.
--   OrganizationRbac is controllers/org_rbac_controller.go; `reconcile` gives the role bindings of the
--   namespace afterwards, the error and the role bindings that were warned of. In the other ones too,
--   `reconcile` is Reconcile, on the stores that it writes. GroupSync is
--   controllers/groupsync_controller.go, on the groups and the objects upstream; Steps has what
--   happens step by step, to the groups and upstream. ZoneVersion is
--   controllers/zonek8sversion_controller.go, where a call returns, fails or panics. ProfileApply is
--   controllers/zoneusageprofileapply_controller.go, on the objects and the watches that were
--   installed. ProfileSync is controllers/zoneusageprofilesync_controller.go, LegacyQuota
--   controllers/legacy_resource_quota_controller.go, UserAttributeSync
--   controllers/userattributesync_controller.go, and QuotaTransformer the transformer
--   controllers/transformers/resourcequota.go, which ProfileApply calls through a parameter.
--   ClusterSource is controllers/clustersource/clustersource.go.
-- Whoami: whoami/whoami.go.
-- Main: main.go. Flags has the flags and their defaults, Environment the calls that may fail. Run is
--   the result of what `main` does first, an agent or an exit with the message that is logged. Program
--   has the agent, which is the handlers by their paths and the controllers, and the steps that fill it;
--   Register and Admission have these steps, and Setup is `main` up to the start of the managers.
--   Assembly and Start say when that succeeds, Serve what the webhook server does with a request; Exempt,
--   Disabled, Privileged, Limited and Entitled follow a request to the handlers of Webhooks and to
--   Skipper.
--   Shutdown is the end of `main`: the goroutines of the two managers, the channel and the context, step
--   by step.
-- Access: what the groups that GroupSync writes let the handler of Organization admit.
-- Validate: validate/labels.go. Config: config.go.
-- Ratio: ratio/ratio.go (Record), ratio/fetcher.go (Fetcher) and limits/limits.go (Limits).
--
-- State: the handlers keep none; a controller's is the stores that its clients write. What a handler
-- reads of the cluster is a field of `Reader`, by what the read answers while the request is handled.
-- The client of a controller is a `Client`, a record of calls on a store with what their documentation
-- promises: which errors a call may return is left open, and whether a failed update was made.
-- A map is any list of its entries, so that what is said holds for every order of iteration. All
-- loops are by structural recursion; there is no fuel.
--
-- Parameters: `wildcard.Match`, string sets, `multierr`, decimals, regular
-- expressions, label selectors with their parsing and printing, the decoders, the client, the managers
-- and what creates them are not
-- the agent's code. Where a proof relies on them, their documented behaviour is a field of an
-- interface, with an instance that has it: `list_set`, `first_only`, `integers`, and in Kube/Memory
-- the stores in memory and the helpers for finalizers. `Works` says of a client that its calls do not
-- fail, for the results that a reconciliation succeeds.
--
-- Not modelled: logging, the wording that `fmt` gives to an argument, contexts and cancellation but for
-- the one that stops the managers, the set-up of a controller with its manager, the parser of the
-- flags, the scheme, and the limits and addresses that are passed to libraries: they call libraries, and
-- keep no state of their own. A second signal, on which controller-runtime exits, is its code. api/v1
-- has types of the API and generated deep copies.
pub mod Base
pub mod Kube
pub mod Skipper
pub mod Config
pub mod Controllers
pub mod Validate
pub mod Webhooks
pub mod Ratio
pub mod Access
pub mod Whoami
pub mod Main
