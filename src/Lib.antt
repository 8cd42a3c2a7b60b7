-- ===== src/Lib.antt =====
-- k8s-inc: the SDN controller kinda-sdn with its telemetry plugin and the model of the network that
-- it works on, and the Kubernetes operators that follow it.
--
-- The controller keeps a topology of devices and links (src/kinda-sdn/model), a registry of the P4
-- programs that run on its switches (src/kinda-sdn/programs), and a telemetry service
-- (src/kinda-sdn/telemetry). A request asks for the telemetry of the traffic between some source
-- and target devices. The service searches paths in the graph of the topology, computes what has to
-- be configured on the switches of each path, compares it with what the intent has configured
-- before, and writes and deletes table entries, counted per switch and entry since intents share
-- them. If a switch refuses an entry, the changes of the request are rolled back.
--
-- The controller's frontend (src/kinda-sdn/controller) answers what the network is and lets devices
-- and programs be changed. The operator src/sdn-shim connects to the frontend and keeps Kubernetes
-- resources of the topology, of the switches that clients may program and of their programs. The
-- operator src/inc-operator reads these resources.
--
-- The files and the code they model:
--   Model/Devices, Model/Graph, Model/Program: src/kinda-sdn/model/{devices,network,utils,program}.go
--   Programs: src/kinda-sdn/programs/registry.go
--   Connector/Entry: RawTableEntry of src/libs/p4-connector/connector/flows.go
--   Connector/Actions: the conversion of raw actions and matches there; what it calls of
--     src/libs/p4r/util/conversion, regexp and strconv is the parameter Conversions
--   Telemetry/Pool: src/kinda-sdn/telemetry/pool.go, the slots for collection ids
--   Telemetry/Config: src/kinda-sdn/telemetry/config.go, match keys and table entries
--   Telemetry/Counter: src/kinda-sdn/telemetry/counter.go, the counted table entries
--   Telemetry/ChangeLog: src/kinda-sdn/telemetry/changelog.go, commit and rollback
--   Telemetry/Entities, Telemetry/Request: src/kinda-sdn/telemetry/util.go
--   Telemetry/Dfs, Telemetry/Traversals: src/kinda-sdn/telemetry/traversals.go
--   Telemetry/Entries, Telemetry/Service: src/kinda-sdn/telemetry/service.go
--   Telemetry/Monitor: src/kinda-sdn/telemetry/sourcecapabilitymonitor.go
--   Graphutils: src/kinda-sdn/graphutils/traversals.go, searches in the graph of a topology
--   Controller/Mapping, Controller/Frontend, Controller/Changes: src/kinda-sdn/controller/{mapping,
--     frontend,controller}.go
--   Shim/Topology: the topology resource, its writer in src/sdn-shim/controllers and its readers in
--     src/inc-operator/shimutils
--   Shim/Api: src/sdn-shim/api/v1alpha1, the calls of the Kubernetes client and of the frontend, and
--     what is relied on of them; Shim/Api/Example satisfies it
--   Shim/Sets, Shim/Run, Shim/Reconcile: Reconcile of src/sdn-shim/controllers/sdnshim_controller.go
--   Operator/Shimutils: src/inc-operator/shimutils/shim.go
-- A function keeps its Go name in snake_case. Where a file has children, the parent holds the
-- definitions and the children what is proved of them; Tests modules hold the concrete runs.
-- Prelude has the shared lists, maps, integers and texts.
--
-- State. A struct is a record, a method takes the state and returns its result with the state after
-- it. A Go map is an association list in which a write replaces in place; its order stands for one
-- order in which `range` may go. A panic is `none` or a constructor `panicked`, and an error a
-- value. The methods that take locks are one step each: calls of the service run one after the
-- other, and the removal that DisableTelemetry starts in the background is a step of its own. Go's
-- int and int32 are integers without bounds, since they count slots, rows and ports.
--
-- Reconcile is a sequence of calls of the outside world, each of which returns an error or a result
-- with the world behind it; after each call Reconcile goes on or returns. What a call does to the
-- cluster is stated by the record Laws of Shim/Api: a successful write has its effect and nothing
-- else, a successful read returns what is stored, and the SDN controller does not change meanwhile.
-- Its parameter Faulty stands for a call that fails without a reason, or that fails at all; what
-- holds whatever fails takes the type Unit for it, and what holds where nothing does takes the empty
-- type. The sets of github.com/hashicorp/go-set are lists without a repetition.
--
-- Bounds. The search for a path recurses on a number that starts one above the number of devices of
-- the graph, which is enough: each call marks one more device. The breadth-first search has fuel
-- for one pass more than the graph has devices, since each is queued once, and following parents
-- for one step more than there are parents. The loop of NotifyChanged needs two rounds. The pool of
-- the service has 128 slots.
--
-- Parameters. The world of the switches is a type; writing and deleting an entry are functions on
-- it that may return an error. The delegate of a registered program is a type. The Kubernetes client
-- and the frontend, as the shim calls them, are records of functions on the type of the world. The
-- conversions of one value of a raw action or match are a record of functions.
--
-- Not modelled: the generated code of the protocol buffers and of Kubernetes, the gRPC servers,
-- streams and clients, the P4Runtime client (src/libs/p4r, a copy of another project), the
-- goroutine of the shim that waits for network updates, the connection to a switch, the
-- reconcilers of src/inc-operator/controllers, and of src/kinda-sdn the forwarding trees, the HTTP
-- handlers and the driver of the switches.
mod Prelude
pub mod Model
pub mod Connector
pub mod Programs
pub mod Telemetry
pub mod Graphutils
pub mod Controller
pub mod Shim
pub mod Operator
