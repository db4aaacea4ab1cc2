-- ===== src/Lib.antt =====
-- The k8s-cleaner controller: a Cleaner is a custom resource that names, on a cron schedule,
-- resources of a cluster to delete, to transform or to report. The reconciler of a Cleaner decides
-- when it is due and hands its name to the executor; the executor keeps a queue of names, and a
-- pool of workers takes names from it, fetches the resources that the Cleaner selects, filters
-- them with the Lua scripts of the Cleaner, and acts on those that are left.
--
-- Files and the code that they model:
--   * Common.antt and Common/: helpers. Common/Int.antt is Go's int64 with its wrap-around,
--     Common/Errors.antt Go's errors and panics, Common/Dicts.antt a Go map, Common/Lists.antt
--     slices.
--   * Api.antt: the types of api/v1alpha1.
--   * DeepCopy.antt and DeepCopy/: api/v1alpha1/zz_generated.deepcopy.go. DeepCopy/Structs.antt
--     has the types of api/v1alpha1 as they lie in memory, with addresses for pointers and slices;
--     DeepCopy/Heap.antt is the memory, DeepCopy/Pointers.antt the two forms of code that all the
--     copies are made of, DeepCopy/Parts.antt and DeepCopy/Roots.antt the methods DeepCopyInto,
--     DeepCopy and DeepCopyObject of each type. A method that writes into `out` returns what it
--     writes. The other files say what a struct in memory stands for, and what the copies do.
--   * Executor/Manager.antt: the queue of internal/controller/executor/client.go and worker.go:
--     Process, GetResult, RemoveEntries, storeResult, getRequestStatus and the critical section of
--     processRequests, as functions on the record Manager (dirty, in_progress, job_queue,
--     results). Executor/Manager/ holds the effect of each operation on each slice and the view of
--     a single request.
--   * Executor/Workers.antt: startWorkloadWorkers and processRequests of worker.go. A worker is
--     idle or serves one request; the events of a run are calls of the manager, the timer of a
--     worker, and the end of processing with its error, interleaved in any order, since each
--     happens under the mutex.
--   * Executor/Queue.antt: the jobQueue of the manager as a slice of an array in memory, which
--     Process, storeResult and RemoveEntries write to while workers hold pointers into it
--     (processRequests of worker.go keeps `&jobQueue[0]`). Executor/Queue/Workers.antt sets it
--     next to the pool, where a worker has the name itself.
--   * Executor/Cluster.antt: what the executor reads through the Kubernetes libraries, a
--     parameter.
--   * Executor/Fetch.antt: fetchResources, collectFromNamespaces, collectWithOptions and
--     getNamespaces of worker.go, addTypeInformationToObject of store.go.
--   * Executor/Lua.antt: mapToTable and toGoValue of worker.go, over the tables of gopher-lua as a
--     parameter.
--   * Executor/Scripts.antt: isMatch, transform and aggregatedSelection of worker.go, over an
--     interpreter and encoding/json as parameters.
--   * Executor/Actions.antt: getMatchingResources, deleteMatchingResources and
--     updateMatchingResources of worker.go, over the writes to the cluster as a parameter. An
--     update overwrites the object that it is handed, which with the empty script is the reported
--     one.
--   * Executor/Services.antt: the clients of the messaging services, the file system and the reads
--     of reports, secrets and cleaners, parameters.
--   * Executor/Secrets.antt: getSecret of internal/controller/executor/notifications.go, and the
--     functions that read its keys.
--   * Executor/Notify.antt: the rest of notifications.go: sendNotifications, the report, and the
--     functions that send.
--   * Executor/Store.antt: internal/controller/executor/store.go: storeResources, getFolder and
--     dumpObject.
--   * Executor/Process.antt: processCleanerInstance and getCleanerInstance of worker.go, which
--     compose the parts above: select, act, notify, store.
--   * Executor/Turn.antt: the body of the loop of processRequests, where a worker processes the
--     cleaner that it holds and stores the error.
--   * Controller/Schedule.antt: schedule, getNextScheduleTime and shouldSchedule of
--     internal/controller/cleaner_controller.go. The clock is an argument, the cron library a
--     parameter.
--   * Controller/Scope.antt: pkg/scope/pruner.go, the scope that holds the cleaner and patches it;
--     the API server and the patch helper are parameters.
--   * Controller/Finalizers.antt: reconcileDelete with removeQueuedJobs and removeReport,
--     addFinalizer and removeOldFinalizer of internal/controller/cleaner_controller.go.
--   * Controller/Reconcile.antt: Reconcile, with the deferred close of the scope, and
--     reconcileNormal.
--   * Controller/Setup.antt: InitializeClient and GetClient of client.go, SetupWithManager of
--     cleaner_controller.go.
--   * Main.antt: cmd/main.go, with the ways in which the program ends; the libraries that it sets
--     up are a parameter.
--   * The modules below Executor/ and Controller/ that are not named here hold what is shown of
--     the part that they stand under: Executor/Workers/ of runs of the pool, Controller/Reconcile/
--     of reconciliations, Pool.antt, Served.antt, Outcomes.antt and Failures.antt there of both
--     together.
--   * Tests.antt and Tests/: runs at concrete inputs, with a small cluster and script language.
--
-- Bounds: toGoValue recurses through nested tables: the model is given one more than their depth,
-- so that it reaches every value in them, and panics where they have no depth, that is where a
-- table contains itself, since the code then overflows its stack. The loop over missed start times
-- ends by its own limit of 100, which is its bound here. Times are nanoseconds; a duration in
-- seconds wraps around as an int64 does, and the difference of two times saturates. Memory never
-- runs out; a slice in a deep copy has no spare capacity. Reads of the cluster answer the same
-- throughout one call; writes go through a state of the world.
--
-- Not modelled: logging; the registration of the types of api/v1alpha1; the usage texts of the
-- flags. The manager may change between the two calls of a reconciliation that use it: what others
-- do meanwhile is a parameter. A call that fails may have changed the world as its parameter says;
-- a panic ends processing, as it ends the program.
pub mod Common
pub mod Api
pub mod DeepCopy
pub mod Executor
pub mod Controller
pub mod Main
pub mod Tests
