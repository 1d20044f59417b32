-- ===== src/Lib.antt =====
-- Zvia is a desktop application that connects to servers over SSH and reconstructs how each
-- application on a server is wired: domains, nginx sites, ports, processes, units, containers.
-- This library models, in TypeScript under app/src, the topology core, the renderer's workspace
-- of panels and tabs with its terminal sessions, and the reading of crontabs, by functions in the
-- same steps as the code, and proves what they promise. In the core a scan makes a snapshot:
-- entities by id, relationships between them, deployments. The clustering makes the deployments
-- out of the relationships, the health pass gives entities and deployments their health, the
-- history store keeps the snapshots with tags, and the diff compares two of them.
--
-- Parts, by file of this library and of the repository:
--
-- Prelude: Boolean tests, lists, sets as lists in the order of insertion (`Set`, `includes`),
--   lists without repetitions, dictionaries as association lists (`Record`, `Map`), numbers as text, case, `split`, `trim`,
--   `sort` and `join`, with what holds of splitting,
--   joining and trimming.
-- Topology: the types and entity ids of app/src/shared/topology.ts. `Topology.Samples` is a small
--   server that the tests share.
-- Diff: app/src/main/services/deployments/diff.ts. `diff_entities` and `diff_relationships` take
--   and return the list of changes that the code pushes to; `Diff.Entities`, `Diff.Relationships`,
--   `Diff.Churn` and `Diff.Owned`, for one deployment's diff, hold what is proved.
-- Health: app/src/main/services/deployments/health.ts. `apply_entity_health` is the four loops of
--   `applyEntityHealth` in order (`pass_listeners`, `pass_reported`, `pass_downstream`,
--   `pass_containers`), each from the dictionary of entities to the next one: the code mutates
--   the entities of the dictionary that it is given, each of which is under one key.
--   `Health.Deployments` is the selection of a
--   deployment's relationships, `Health.Enrich` `computeDeploymentHealth` and `enrichDeployments`.
-- History: app/src/main/store/topologyHistory.ts. A `Store` holds `byServer` and the file as last
--   written; a method is a function from store to store. `History.Persistence` has a step for each
--   method that writes, for a load, and for a restart, which is a `reset` and then a load.
-- Cluster: app/src/main/services/deployments/clusterer.ts and insights.ts. The two breadth-first
--   searches are one `search`, with the entities not gone beyond (`barrier`) and those entered
--   (`admit`) as parameters. `Cluster.Domains` is the part for domains, `Cluster.Containers` the
--   groups of containers and their ids, `Cluster.Assign` the loops over both with `claimedIds`,
--   `Cluster.Insights` the shared backends.
-- Service: app/src/main/services/deployments/TopologyHistoryService.ts and summarize.ts, over the
--   store of `History` and the diffs of `Diff`. Methods that only call the store's method of the
--   same name have no definition of their own.
-- Scan: app/src/main/services/deployments/TopologyService.ts. A `Service` is the cache and the
--   history's store; the times read from the clock and the snapshot that was built are arguments,
--   and a scan starts where its snapshot has been built. `Scan.Naming` says which entities a query
--   of `lookup` names.
-- Terminals: app/src/renderer/state/terminalSessionStore.ts, the terminal tabs of each panel. What
--   the store tells others to close is kept as a list.
-- Workspace: app/src/renderer/state/workspaceStore.ts: the layout tree of a server's workspace in
--   `Workspace`, one server's panels, focus and tabs in `Workspace.Panels`, and in
--   `Workspace.Store` the methods over all servers, with app/src/renderer/state/panelStateStore.ts
--   and the terminals, which closing a panel goes to. A share of a split is the quotient that the
--   code divides; the ids that `generateId` makes are arguments.
-- Cron: app/src/shared/cron.ts: the fields of a schedule in `Cron`, its validation in
--   `Cron.Validation`, the reading of lines and of a crontab in `Cron.Lines`, the text that
--   describes a schedule in `Cron.Describe`. A name is looked up in a JavaScript object, so a
--   field's value can be what every object inherits.
-- Crontab: app/src/main/services/CronService.ts: creating, updating and deleting a job, each a
--   function from what `crontab -l` answered to what is thrown or handed to `crontab`.
--   `Crontab.Listing` is the list of all jobs, from what the discovery command printed, which
--   `Crontab.Sections` takes apart.
--
-- Bounds. `while` loops are recursions on a number of rounds. A search gets as many rounds as there
-- are seeds and ends of relationships: each round takes one entity from the queue, which each
-- enters once. The eviction of snapshots gets one for each snapshot, and `uniqueDeploymentId` one for
-- each id taken, as no candidate occurs twice. `show` gets one more round than the number's value.
--
-- Not modelled. Case, spaces and the order of texts are those of ASCII texts. A `number` is a
-- natural number. The history's file is a value that the last write replaced: a write that fails
-- is not modelled, nor the time at which it ends. Parsing the file as JSON is not modelled; what it
-- can hold is a data type. The commands that read and install a crontab are not modelled, nor how
-- they fail. The scan itself (collector, parsers, normalizers), connections, IPC and the interface
-- are not part of this library.
pub mod Prelude
pub mod Topology
pub mod Diff
pub mod Health
pub mod History
pub mod Cluster
pub mod Service
pub mod Scan
pub mod Terminals
pub mod Workspace
pub mod Cron
pub mod Crontab
