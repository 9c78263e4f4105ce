-- ===== src/Lib.antt =====
-- The controllers of cluster-api-provider-scvmm. The machine controller is a reconciler that keeps
-- a ScvmmMachine and a virtual machine of System Center Virtual Machine Manager (SCVMM) in step,
-- by PowerShell commands that workers send over WinRM, and by reads and writes of the Kubernetes
-- API server. The controllers of providers, clusters and persistent disks, the workers, and the
-- writers of the images from which a virtual machine reads its cloud-init data stand beside it.
--
-- The parts and their files:
--
-- Base: numbers, tests, lists, texts, decimal numbers and integers that all parts share. A text is a
-- list of code units, as `codes` of a literal.
--
-- Api: the custom resources of api/v1alpha1, one module for each, with the fields that the controller
-- reads or writes. Api.Meta has the metadata, the Go errors with the chain that `errors.As` walks, and
-- the results of fallible calls. Api.CopySpec is `CopyNonZeroTo` of scvmmmachine_types.go.
--
-- Names: `incrementString` of internal/controllers/scvmmmachine_controller.go (Increment), the same as
-- one pass with a carry (Carry), as a number in mixed radix (Rank), and the loop over one range of names
-- of `generateVMName` (Range).
--
-- Scvmm: the commands and their command lines (Command), the escaping of their arguments (Escape), and
-- what comes back (Answer), of helper_winrmcommand.go and of the callers.
--
-- Machine: the controller itself. Machine.Env is the outside as a record of parameters: the API server,
-- the WinRM workers, the encoders, and the helpers of cluster-api and controller-runtime; an answer may
-- depend on the whole history of what happened before. Machine.Event is that history, newest event
-- first, with every command and its result, every read and every write. Machine.Action is a call: it
-- takes the machine object, which the Go functions share by pointer, and the history, and gives a value,
-- a Go error, a panic or a loop that did not end. Then, in the order of the calls: Send
-- (`sendWinrmCommandWithErrorResult`, `sendWinrmSpecCommand`, `getVMIDsByName`), Reason
-- (`patchReasonCondition` with its backoff), Disks and DiskClaim (`makeDisksJSON`, `vmNeedsExpandDisks`,
-- `vmUpdatePersistentDisks`, `vmClaimPersistentDisks`, `claimPersistentDisk`), NamePool
-- (`generateVMName`, `removeVMNameInPool`), Claims (helper_ipaddressclaim.go), CloudInit
-- (helper_cloudinit.go and `addCloudInitToVM`), Create (`createVM`), Steps (`getVM`, `setVMProperties`,
-- `addVMSpec`, `expandDisks`, `setStaticAddresses`, `startVM`, `getVMInfo`), Delete (`reconcileDelete`,
-- `removePersistentDisks`) and Reconcile (`Reconcile`, `reconcileNormal`).
--
-- Winrm: the workers of helper_winrmcommand.go. Winrm.Event has the outside of one worker as a record, the
-- history of what it does, and the cache of providers (`winrmProviders`), which the other goroutines
-- change while the worker waits at its channel. Then, in the order of the calls: Script
-- (`getFuncScript`), Connect (`createWinrmCmd` and what it calls, `sendWinrmPing`), Hosts (the choice of an
-- execution host and the patch of its status), Session (`winrmReturn` and the loops of `doWinrmWork`) and
-- Worker (`winrmWorker`).
--
-- Controllers: `Reconcile` of scvmmprovider_controller.go (Provider), of
-- scvmmpersistentdisk_controller.go (Disk) and of scvmmcluster_controller.go (Cluster), each with its own
-- record of the outside. The provider's controller writes the cache that the workers read.
--
-- Image: the cloud-init images. Sector fills the bytes of a sector, where a write outside of it panics;
-- Writer has the writes to a file. Iso, Vfat, Vhd and Vhdx are helper_iso9660.go, helper_vfat.go,
-- helper_vhd.go (with helper_plain.go) and helper_vhdx.go, and Handlers has the tables by name.
--
-- Ways to reason on calls: Machine.Emits bounds the events that a call of the machine controller can add to
-- the history, with one rule for each way to build a call, and Machine.Commands uses it for the commands
-- of each branch. Machine.Holds adds what a call keeps of the machine's metadata, in the object and in
-- every patch. Machine.Gives says what a call keeps of the machine, what its answer has, and that it
-- ends. The other parts share Api.Call, a call over any state; Api.Call.Keeps has rules for what a call
-- keeps of it and Api.Call.Returns for how it can end, both for search.
--
-- Bounds and fuel: int32 values are bit patterns with `% 2 ^ 32` written out. The other numbers of SCVMM's answers
-- and of the resources are natural numbers: sizes, counts and places that are not negative. The loop over a name range
-- takes the parameter `rounds` of Machine.Env: one more than the names of the cycle of the range's Start
-- is enough where the loop of the source ends at all. The loops of a worker do not end by themselves; they
-- are cut after `lines` reads for a command, `rounds` commands of a session and `turns` rounds of the
-- worker, and a call that is cut gives `timeout`. The table of a VFAT image grows in at most 65526 rounds,
-- since each round adds a sector and the loop ends at 65525; the chain of a file takes at most as many
-- rounds as the file has bytes, and one.
--
-- Not modelled: logging, the Prometheus counters, the watches and their mapping functions, the main
-- program, the generated deep copies and the resource types of templates, which no controller reads; of
-- scvmmpersistentdisk_controller.go what reads a disk from a share, which is not called. The goroutines
-- run one at a time: the cache changes under a worker only where it waits. The SMB share is a parameter of
-- Machine.Env, and so are the winrm library, the identifiers, CRC-32C, UTF-16 and the clock where they are
-- used. Of an error that `%v` prints only the text in front is kept. The iteration over a Go map is in the
-- order of the association list, or in one that a parameter gives. File names of images are ASCII.
pub mod Base
pub mod Api
pub mod Names
pub mod Scvmm
pub mod Machine
pub mod Winrm
pub mod Controllers
pub mod Image
pub mod Tests
