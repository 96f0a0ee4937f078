-- ===== src/Lib.antt =====
-- A verification library for mksrv, which runs the servers of small organisations from a private
-- workspace: a deployment, its hosts, the stacks of containers that the hosts carry, and tenants that
-- consume the stacks.
--
-- The parts of the program and how they interact:
--   * internal/workspace loads the files of a workspace, checks them against each other, and returns
--     the decoded workspace with a report of issues; every other command starts from a valid one.
--   * internal/model declares the decoded documents and the sizing of hosts; internal/engine the
--     catalog of stacks that is embedded in the program.
--   * internal/infra turns the workspace into the inputs of Terraform; internal/secrets keeps the
--     secrets of the stacks in a parameter store; internal/ssh enrols the keys of hosts.
--   * internal/keycloak reconciles the realms of tenants: their groups, clients, mappers and users.
--   * internal/deploy puts a stack on a host: its secrets, files, units, hooks and health checks.
--   * internal/headscale writes the policy of the mesh between the fleet and the tenants.
--   * internal/cli is the command line: it orders the hosts and their stacks, and makes the policy of
--     the mesh from the tenants of the workspace.
--   * internal/configd is a server: it hands signed client configurations to the users of tenants.
--
-- Which file models which part:
--   * Model.Types: the structs of internal/model/model.go; Model.Accessors: the methods of Tenant;
--     Model.Capacity: InstanceRAMMB and SwapForStacks of internal/model/capacity.go.
--   * Workspace.Report: Issue, Report, addIssue, semanticError, semanticWarning and hasErrors.
--     Workspace.Report.Outcome: the statement that a part of a validation adds no error exactly under
--     a condition, and how the statements of parts are put together.
--   * Workspace.Discover, Workspace.Load and Workspace.Validate: Discover, validateAndDecodeFile and
--     Validate of internal/workspace/workspace.go. Workspace.Semantic: semanticChecks of
--     internal/workspace/semantic.go, with its loops in Workspace.Fleet (hosts), Workspace.Tenants and
--     Workspace.Users, and the functions that it calls in Workspace.Checks (one module for each block
--     of a tenant), Workspace.Hosts (normalizeImplicitStacks, checkHostCapacity, checkHostStorage),
--     Workspace.Domain, Workspace.Engine, Workspace.Semver and Workspace.Cycles (checkCatalogCycles).
--   * Configd.Token: Verify, keyFor and VPNEntitled of internal/configd/oidc.go; Configd.NodeName and
--     Configd.Server: nodeName, NewServer and the handler clientConfig of internal/configd/server.go,
--     and PreAuthKey of internal/configd/headscale.go.
--   * Secrets.Random and Secrets.Store: internal/secrets/secrets.go. Ssh.Trust: Trust of
--     internal/ssh/knownhosts.go. Engine.Descriptor and Engine.Catalog: validateDescriptor and Catalog
--     of internal/engine/engine.go. Infra.Inputs: the pure functions of
--     internal/infra/infra.go. Keycloak.Users, Keycloak.Clients and Keycloak.Realm:
--     EnsureUsers, EnsureClient and EnsureRealm of internal/keycloak/reconcile.go with the functions
--     that they call; Keycloak.Admin: their data and requests; Keycloak.Contract: what the server
--     documents. Deploy.Stack: DeployStack of internal/deploy/stack.go, with its options in
--     Deploy.Options, its commands in Deploy.Host and the names of its files and units in
--     Deploy.Files.
--     Headscale.Policy, Headscale.Command and Headscale.Accounts: Policy, the quoting of run,
--     EnsureUser and ExpireAPIKeysExcept of internal/headscale/headscale.go.
--   * Cli.Order: orderedStacks and baseFirst of internal/cli/hosts.go. Cli.Tenants: sortedTenantIDs,
--     selectedTenants, webOriginPorts and policyTenants of internal/cli/tenant.go.
--   * Common.Effect: code that changes a state and may stop with an error, as a small monad with
--     rules for what such code leaves behind. The rest of Common: texts, maps, sorting, decimal
--     numbers and network addresses, as the Go library has them.
--
-- How the code is modelled. A string is a list of bytes, and case and white space are those of ASCII.
-- A map is an association list, and a loop over a map visits that list; the theorems hold for every
-- list, so that they hold for every order. A function that writes to a report takes the report and
-- returns the new one. An error value is a case of an Option or of a data type; the texts of messages,
-- which no code reads, are left out. What runs on other machines is a parameter: a server whose state
-- is of an unknown type and that keeps to a contract, or hosts whose answers are a function of all
-- that they were asked before. The integers of the documents are those that the schemas admit,
-- none of them negative.
--
-- Bounds and fuel. The search for cycles runs on fuel: each nested visit marks one more name of the
-- catalog, so that one more than the size of the catalog is enough, and this is what its theorem is
-- about. The search that orders the stacks of a host runs on fuel in the same way. The loop that
-- draws random letters runs on a number of reads, enough as soon as they hold as many bytes below
-- 248 as letters are asked for. All other loops follow the structure of a list.
--
-- Not modelled: input and output, that is files, HTTP, SSH, AWS and the running of Terraform, whose
-- answers are parameters; base64, JSON, YAML, JSON schemas and cryptography, which are libraries;
-- the rest of the command line in internal/cli, which provisions databases, mail, certificates and
-- secret stores, the rest of internal/headscale and internal/deploy, internal/render,
-- internal/schema and internal/scaffold.
pub mod Common
pub mod Model
pub mod Workspace
pub mod Cli
pub mod Configd
pub mod Ssh
pub mod Secrets
pub mod Engine
pub mod Headscale
pub mod Infra
pub mod Keycloak
pub mod Deploy
