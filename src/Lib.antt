-- ===== src/Lib.antt =====
-- The xenonite operator: it keeps pools of Kubernetes nodes on Proxmox VMs. The provisioner makes a
-- claim for each pod that waits for a node of a pool and deletes the claims whose nodes stay empty;
-- the controller of claims clones a VM for a claim through a backend, follows its node until it is
-- ready, and deletes the VM before it lets the claim go.
--
-- Parts:
--   Base, Base/...                 helpers: tests on numbers, lists, maps, integers
--   Go/Strings, Go/Strconv         what the code uses of Go's packages strings and strconv
--   Api/Core                       the fields of Kubernetes' own types that the code uses
--   Api/Labels, NodeClaim, NodePool, ProxmoxProvider
--                                  api/v1/labels.go, xenonnodeclaim_types.go, xenonnodepool_types.go,
--                                  proxmoxprovider_types.go
--   Api/Scheme                     api/v1/groupversion_info.go and the init functions of the types
--   Exec                           actions: the calls on the API server, on Proxmox and on the clock,
--                                  with what answers them as a parameter
--   Exec/Emits, Exec/Inversion     which calls an action may make, and where a call comes from
--   Exec/Triple                    what holds of the history before and after an action
--   Exec/Yields, Exec/Blames       what holds where an action returns a value, and what an error
--                                  comes with
--   Exec/Bounded                   how many calls an action makes and how long it waits
--   Provider                       internal/provider/provider.go, the backends' interface
--   Proxmox                        internal/provider/proxmox/proxmox.go: New, Create, Delete, Get
--   Proxmox/Machines, Presence     what the calls on Proxmox show of a VM: that its clone has ended,
--                                  and what its last lookup found; and the backend against that
--   Proxmox/ProviderId             its providerID codec
--   Claim/Objects, Methods, Reconcile
--                                  internal/controller/xenonnodeclaim_controller.go
--   Provisioner/Pods, Watches, ScaleUp, ScaleDown, Reconcile
--                                  internal/controller/provisioner_controller.go
--   Cluster/...                    the controllers together: their reconciles in any order
--   Cmd/Options, Main              cmd/main.go and the two SetupWithManager: from the flags to the
--                                  running manager, over what each step returns
--   Copy/Memory, Objects, Generated, Pointers
--                                  api/v1/zz_generated.deepcopy.go, over memory with references
--   Copy/Views, Deep, Items, Copies, Kinds
--                                  the values that the objects in memory read as, and deep copies
--   Tests/...                      a small cluster on which the definitions run
--
-- The controllers' state is all in the API server and in Proxmox. A method is an action: given the
-- history of all calls so far it returns Go's value or error, and the calls that it made, each
-- with its answer. An answer may be anything, and may depend on the whole history (`External`), so
-- a statement over every `External` covers lost writes, stale reads, failures between any two
-- calls, and other writers. A call that writes an object returns the object as the server has it,
-- which the method then goes on with, as the Go client overwrites the object in place. A function
-- of the source that is a Go loop or a chain of early returns is split where it branches on an
-- answer; each piece carries the name of what it does, and its source lines stand in the manifest.
--
-- What is not under this repository is a field of `External`: the API server's and go-proxmox's
-- calls, the functions of apimachinery and controllerutil on conditions, finalizers and owner
-- references, text/template, and the formats of package time. Only `Exec.Laws.HasFinalizerLaws`,
-- `Provisioner.ScaleUp.Claims.SetsOwnerOnly`, `Proxmox.Machines.Laws.NamesHandles`, `KeepsMachines`,
-- `Provisioner.Reconcile.Bounded.ListsWithin` and, for several runs in a row,
-- `Cluster.Server.IsFaithful`, `Cluster.Census.IsCensus` and
-- `Provisioner.ScaleDown.Clears.KeepsTime` say something of them, where a theorem asks for it.
--
-- Numbers: Go's int is 64 bits wide; `Atoi` checks it, and `Sub` of two times stops at the ends of
-- an int64. Counts of pods and claims, and quantities, are integers without bounds: the source adds
-- and subtracts them far from the ends. Fuel: only the printing of a number recurs on fuel, the
-- number itself, which is no less than the count of its digits. Every other loop is over a list or
-- a count. Nothing in the source tries again within a run: a run waits only in go-proxmox's waits
-- for a task, each with a timeout of 600 seconds.
--
-- Objects are values in all parts but `Copy`, where Go has pointers, slices and maps: `base :=
-- claim.DeepCopy()`, followed by a write to the claim's map in place, is a value and a changed one.
-- In `Copy` a slice or a map is an address in a list of cells, a pointer to a struct is the struct,
-- and an object reads as the value that the other parts work on. The copies of k8s.io's types are a
-- parameter there (`Foreign`), as are in `Api/Scheme` apimachinery's Scheme and SchemeBuilder
-- (`Runtime`, with `IsRuntime` for what is documented of them), and in `Cmd` the environment,
-- flag.Parse and what each step of the start-up returns (`Outside`).
--
-- Not modelled: test/ (tests against a cluster), config/ and dist/ (YAML), logging, and the
-- transport of HTTP that `New` configures, but for its options.
pub mod Base
pub mod Api
pub mod Exec
pub mod Go
pub mod Provider
pub mod Proxmox
pub mod Claim
pub mod Provisioner
pub mod Cluster
pub mod Cmd
pub mod Copy
pub mod Tests
