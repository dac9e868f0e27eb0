-- ===== src/Lib.antt =====
-- A verification library of vcd-csi, a driver that offers disks of VMware Cloud Director to
-- Kubernetes through the Container Storage Interface. A controller creates, deletes, attaches,
-- detaches and expands disks through a client of the cloud; a node finds the attached disk by its
-- unit, formats it and mounts it.
--
-- StorageSize models pkg/types/disk.go, Config the settings and the logger of conf/conf.go, and Locker
-- the volume lock of internal/locker/locker.go, each operation as one step; Locker.View takes a lock
-- up to the order of its entries, and Locker.Threads has the goroutines that interleave the accesses of
-- the map and of the mutex.
-- Vcd models pkg/vcd-client/client.go: Vcd.State the client's table, mutex and authentication, Find
-- the lookups, Units `buildDiskUnits` and `getFreeUnitNum`, Detach `detachDisk`, Attach the parts of
-- `AttachDisk`, Service the public methods (`DetachDisk` is `detach_volume`, since `detach_disk` is
-- `detachDisk`), and Session a client that serves a sequence of requests. Trace records what a
-- client asks of the cloud and how its waits for tasks end, and Guard says what each request must have before it.
-- Csi holds the messages of the interface, as far as the driver reads them.
-- Driver models internal/driver: State the driver's fields and interfaces, Capacity
-- `extractStorage`, Capabilities `validateCapabilities`, Create, Publish and Expand the controller's
-- handlers of disk.go, Info the handlers of the three files that only describe the driver, Node the
-- handlers of node.go, and Client the client behind the driver's interface.
-- Driver.Session is a driver that serves a sequence of remote calls, and Driver.Threads a driver whose
-- calls are goroutines: Vcd.Steps has the bodies of the client's methods in steps, one for each use of
-- the client's state, and Threads.Impl builds each handler as a program whose steps are those, the
-- accesses of the lock and the calls of the host (Controller, Format, Node and Requests have the
-- handlers).
-- Threads.Serial compares the goroutines with whole methods of the client, by the relation of
-- Threads.Sim, and Threads.Finish runs one of them alone.
-- Mount models internal/mount/mounter.go: Text its text functions, Host the operating system,
-- Commands formatting and mounting, Disks the search for a device, Statistics the usage, and Handler
-- the mounter that the driver is given. Trace records the commands that a host runs, and Blank says
-- what a command that makes a file system must have before it.
-- Service models cmd/provisioner/main.go and pkg/controller/v1/cntrl.go: Start what `main` makes, Listen
-- the listeners of `Run` and its interceptor, Life the goroutines of `main` and `Run`, one step for each
-- thing that one of them does and for each mishap, a server that fails or a handler that panics,
-- Session the started service that serves a sequence of remote calls, and Server the gRPC server with
-- its three services, whose calls go through the interceptor.
-- Go holds the integers of 64 bits with their wrap-around, the error values and the calls: a call
-- takes a state and returns a value or an error, panics, or blocks on a mutex that its own caller
-- holds, with the state that it reached. Prelude holds the shared names and the maps, as lists of
-- entries. Tests has runs of the code and the theorems at concrete inputs.
--
-- Code outside the repository is a parameter: the library of the cloud (Cloud), with a state of its
-- own; the host with its commands, the listing of its disks and its JSON decoder (Mount.Host); the
-- sorted string sets of Kubernetes (Driver.Capabilities), of which it is assumed that a new set is
-- empty and that one with an insertion is not; and the order in which the runtime ranges over a map,
-- of which it is assumed that it visits each entry once.
--
-- Of the service's start, `envconfig.Process`, `url.ParseRequestURI` and `logrus.ParseLevel`
-- (Service.Start), the files, sockets and addresses of the operating system (Service.Listen), and what
-- `errgroup.Group.Wait` makes of the results of its functions (Service.Life) are parameters, and so are
-- the numbers with a fraction of `formatBytes` (Driver.Capacity.Format).
--
-- All loops are over lists or over a count of rounds. The one use of fuel is the text of a number
-- (Vcd.Text), with one unit more than the number.
--
-- Not modelled: the logging but for that of the interceptor, and the generated mocks. Messages keep
-- their format and arguments, with sizes as numbers. What gRPC makes of a call, its name and its
-- message, is a parameter or left out. In Driver.Threads a call of the host and an access of the volume
-- lock is one step, and two accesses of a map at once are not modelled; Locker.Threads has the steps
-- of the lock. A panic ends its goroutine there, while it ends the process of the program, which then
-- takes no further step of a schedule.
pub mod Prelude
pub mod Go
pub mod StorageSize
pub mod Config
pub mod Locker
pub mod Cloud
pub mod Vcd
pub mod Csi
pub mod Driver
pub mod Mount
pub mod Service
pub mod Tests
