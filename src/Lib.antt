-- ===== src/Lib.antt =====
-- Kahu: a verification library for the controllers of Kahu, a data protection service for
-- Kubernetes.
--
-- Kahu runs as controllers that watch custom resources. A `Backup` is driven through the stages
-- Initial, PreHook, Volumes, PostHook, Resources and Finished by the backup controller
-- (controllers/backup). It calls the hook executor (hooks), the volume handler (volume) and a
-- metadata service over gRPC, and writes its progress to the status of the `Backup` through the
-- API server. A reconciler (controllers/backup/volumebackupreconciler.go) looks at the contents of
-- the volume backups and marks the backup when they are settled, which lets the controller go on
-- from the Volumes stage. Both work on what a lister has cached, so the controller keeps a cache of
-- the revisions that it has processed (utils/store.go) and passes over older ones.
--
-- A `Restore` goes through Initial, PreHook, Volumes, Resources, PostHook and Finished in the
-- restore controller (controllers/restore). It streams the objects of a backup from the metadata
-- service into a cache, filters them, adds what they depend on, mutates them, restores the volumes
-- of their claims by volume restore contents, and applies them in an order of kinds. A second
-- reconciler marks a restore when its volume restore contents are settled.
--
-- What belongs to a backup is collected from the cluster into a cache of objects, by kinds,
-- namespaces and the specifications of the backup, and what these objects depend on is added. A
-- volume provider runs the volume backup service, which takes the contents that are assigned to its
-- driver, starts their backups, polls the progress by an operation of the operation manager, and
-- deletes them.
--
-- The files and the code that they model:
--   Base             lists, maps, results and numbers; Base/Integer is strconv.ParseInt,
--                    Base/Actions the operators of the actions, Base/Names the sorted sets of
--                    names that a message lists
--   Api              apis/kahu/v1beta1/backup.go and the parts of its siblings that are read
--   Unstructured     the fields of apimachinery's unstructured objects that are read
--   Utils/Kinds      the names of kinds in utils/constant.go
--   Utils/Store      utils/store.go: the methods of threadSafeStore; Store/Revision has
--                    StoreRevisionUpdate and StoreClean
--   Utils/Metadata   utils/finalizers.go and utils/annotations.go
--   Utils/Select     GetResultantItems, RemoveItem and Contains of utils/validations.go,
--                    GetSubItemStrings and FindMatchedStrings of utils/utils.go
--   Operation        utils/operation/manager.go
--   Hooks/Namespaces FilterHookNamespaces, filterIncludesExcludes and checkInclude of
--                    hooks/common.go
--   Backup/Cluster   what the backup controller calls outside, and the state of a handler's run
--   Backup/Status    the status that updateBackupStatus and mergeStatusResources make
--   Backup/Updaters  controllers/backup/updaters.go, and annotateBackup of backupvolume.go
--   Backup/Volumes   controllers/backup/backupvolume.go and syncVolumeBackup
--   Backup/Metadata  controllers/backup/backupmetadata.go and metaservice.go
--   Backup/Sync      syncBackup of controllers/backup/backupcontroller.go
--   Backup/Validate  validateBackup of the same file
--   Backup/Process   processQueue, deleteBackup, backupInitialize of the same file
--   Backup/Reconcile controllers/backup/volumebackupreconciler.go
--   Backup/Objects   the cache of a backup's objects and the API that they are collected from
--   Backup/Dependency controllers/backup/dependencyresolver.go
--   Backup/Collect   controllers/backup/backupresources.go
--   Restore/Objects  the API types of a restore, of its volumes and of its contents
--   Restore/Filters  controllers/restore/filters.go, with uidKeyFunc and the namespace index of
--                    restorecontroller.go
--   Restore/Cluster  what the restore controller calls outside, and the state of a handler's run
--   Restore/Updaters patchRestore, updateRestoreStatus and the other updates of
--                    restorecontroller.go, and annotateRestore of volumerestore.go
--   Restore/Resolver controllers/restore/resolver.go
--   Restore/Content  fetchBackupInfo, fetchBackupContent, getContent and cloneIndexer of
--                    restorecontroller.go, GetBackupIdentifier of utils/parser.go
--   Restore/Populate populateRestoreResources and patchRestoreObjects of restorecontroller.go
--   Restore/Contents parseRestorePVC, parseVBC and constructVolumeRestoreContent of
--                    controllers/restore/volumerestore.go
--   Restore/Volumes  syncVolumeRestore and what it calls, of the same file
--   Restore/Apply    applyResource, ensureNamespace, deleteRestoredResource and isCleanupNeeded
--                    of controllers/restore/metadatarestore.go
--   Restore/Priority prioritiseResources of the same file
--   Restore/Resources syncMetadataRestore, applyCRD and applyIndexedResource of the same file
--   Restore/Validate validateRestore of restorecontroller.go
--   Restore/Sync     syncRestore and initRestore of the same file
--   Restore/Process  processQueue and deleteRestore of the same file, and the removal of volume
--                    restore contents and restored resources of volumerestore.go
--   Restore/Reconcile controllers/restore/volumerestorereconciler.go
--   VolumeService    providerframework/volumeservice/backup/backupvolume.go: Cluster has its data and
--                    what it calls, Updaters the patches, Start processVolumeBackup, Progress the
--                    polling, Delete processDeleteVolumeBackup, Process processQueue,
--                    Request the request of a start
-- The files below a component hold what is proved of it, and its `Examples` the concrete runs.
--
-- A function of the source is a function of the same name in snake case. A method that changes the
-- world or the controller is an `Action`: a function from a `Machine` to a result and a `Machine`.
-- A body with several early returns is split into one function for each call, by the error that the
-- call gives. A case of `syncBackup` that falls through ends in a call of the next one. The machine
-- keeps a history of the work done outside, which no code reads; it is what the theorems on orders
-- speak of. The object that a pointer parameter shares is passed on where the code mutates it; the
-- deep copies of the source are then values. A slice is its list together with the array behind it
-- where an operation works in place (Utils/Select); a set that a call changes is returned with the
-- result (Hooks/Namespaces). The operation manager's goroutines are threads
-- of a step relation, one step for each section under the lock and for each poll (Operation).
--
-- Parameters, as fields of `Cluster`, `Indexer`, `ObjectCache` and `Api`: the Kubernetes API and
-- its listers, JSON merge patches, regular expressions, label selectors, `cache.Indexer` with what
-- its documentation says of Add, ByIndex and Delete, and the clock. `Api` is the cluster as it
-- stands during one collection. Backup/Sync takes the collection as its parameter
-- `sync_resources`; Backup/Collect models it. Parts of the repository that are not modelled enter
-- the same way: the hook executor, the volume handler and runBackup, which streams the objects to
-- the metadata service; and for a restore the mutation of objects, the hooks of init containers
-- and pods, and the creation of pods and workloads with hooks. A stream of objects is the finite
-- list of its messages with the error that ends it, if one does. What the theorems assume of a
-- parameter stands among their hypotheses, such as `KeepsStatus`, that the API server returns the
-- status that it was sent.
--
-- Revisions are int64 values: `parse_int` has the range test of strconv.ParseInt, and `int_lt`
-- compares them. All loops are structural recursion on a list, without fuel. The resolvers of
-- Restore/Resolver call each other without a bound in the source: they take the number of calls
-- that the stack has room for, and one more is the fault `stack_overflow`. Two are enough where no
-- volume refers to a volume as its claim. Those of Backup/Dependency look into the cache before
-- they go on: one more than the number of the identifiers that objects depend on is enough. A nil
-- pointer that is read is a fault as well. Logs, and the messages of events, are left out; the
-- reasons of events and failures are kept. Where the source takes a set's elements in no given
-- order, they are taken in the order of insertion.
--
-- Times are whole seconds. The source tests whether less than a whole number of seconds has passed
-- since a whole second, which the seconds of the clock decide.
--
-- Not modelled: wiring of informers and work queues, the gRPC services and their providers, the
-- generated clients, the mutation of restored objects, the checks for conflicts of workloads, the
-- older collection by kinds that runBackup streams, the snapshot and volume controllers, the volume
-- restore service, and the choice of the pods of a hook with its execution.
pub mod Base
pub mod Api
pub mod Unstructured
pub mod VolumeService
pub mod Utils
pub mod Operation
pub mod Hooks
pub mod Backup
pub mod Restore
