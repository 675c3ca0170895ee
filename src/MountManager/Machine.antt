-- ===== src/MountManager/Machine.antt =====
-- The manager's state and its steps, pkg/mountmanager/manager.go. Mount and Unmount hold the
-- volume's lock and wait in between: each of their phases is a step, and between two phases come
-- the steps of other volumes, of the processes, and of watchProcessExit, which takes no such lock.
use seaweedfs_csi_driver.Base.{
  ℕ, ◌+◌, ltb, eqb, String, Bool, true, false, Option, none, some, List, [], ◌∷◌, Assoc, lookup,
  insert, erase, if◌then◌else◌, ◌==◌,
}
use seaweedfs_csi_driver.MountManager.{
  MountRequest, MountFault, invalid, Answers, validate_mount_request, prepare, wait_for_mount, stop,
}

-- mountEntry. A process is named by its number; each is started for one entry, so that the number
-- also tells entries apart as their addresses do.
pub record MountEntry : Type 0 where
  pub volume_id : String
  pub target_path : String
  pub cache_dir : String
  pub local_socket : String
  pub volume_context : Option (Assoc String)
  pub read_only : Bool
  pub process : ℕ

unfoldable pub entry_of : MountRequest → ℕ → MountEntry
entry_of req process = record {
  volume_id = req.volume_id;
  target_path = req.target_path;
  cache_dir = req.cache_dir;
  local_socket = req.local_socket;
  volume_context = req.volume_context;
  read_only = req.read_only;
  process = process;
}

-- What the goroutine that holds the volume's lock does next: nothing, the lock being free; for
-- Mount, startMount, the wait for a dead process's `done`, waitForMount, stop after that failed,
-- and the entry's insertion; for Unmount, stop, and the removal.
pub data Phase : Type 0 where
  free : Phase
  starting : MountRequest → Phase
  awaiting launching : MountRequest → ℕ → Phase
  aborting : ℕ → MountFault → Phase
  storing stopping clearing : MountEntry → Phase

pub data Reply : Type 0 where
  mounted : String → Reply
  unmounted : Reply
  failed : MountFault → Reply

-- Manager, with the processes: how many were started, for which volume, whose `exited` and `done`
-- are closed, and which were given up by a failed start. The replies go to the callers.
pub record Manager : Type 0 where
  pub mounts : Assoc MountEntry
  pub phase : String → Phase
  pub started : ℕ
  pub owner : ℕ → String
  pub exited : ℕ → Bool
  pub done : ℕ → Bool
  pub abandoned : ℕ → Bool
  pub replies : List (String × Reply)

-- NewManager
abbrev pub new_manager : Manager
new_manager = record {
  mounts = [];
  phase = λ v. free;
  started = 0;
  owner = λ n. "";
  exited = λ n. false;
  done = λ n. false;
  abandoned = λ n. false;
  replies = [];
}

module _ {A : Type 0} where
  abbrev pub set_at : String → A → (String → A) → String → A
  set_at v a f w = if v == w then a else f w

  abbrev pub set_number : ℕ → A → (ℕ → A) → ℕ → A
  set_number n a f m = if eqb n m then a else f m

abbrev pub enter : String → Phase → Manager → Manager
enter v phase s = record s { phase = set_at v phase s.phase }

-- The return of the call, which unlocks.
abbrev pub reply : String → Reply → Manager → Manager
reply v r s = record s { phase = set_at v free s.phase; replies = (v, r) ∷ s.replies }

-- removeMount
unfoldable pub remove_mount : String → Manager → Manager
remove_mount v s = record s { mounts = erase v s.mounts }

-- Mount, with the lock held, on what getMount finds.
unfoldable pub look : MountRequest → Option MountEntry → Manager → Manager
look req none s = enter req.volume_id (starting req) s
look req (some e) s =
    if s.exited e.process
    then enter req.volume_id (awaiting req e.process) s
    else if e.target_path == req.target_path
    then reply req.volume_id (mounted e.local_socket) s
    else reply req.volume_id (failed (invalid "already mounted")) s

-- A wait that returned.
unfoldable pub waited : String → MountRequest → ℕ → Option (Option MountFault) → Manager → Manager
waited v req n none s = s
waited v req n (some none) s = enter v (storing (entry_of req n)) s
waited v req n (some (some e)) s = enter v (aborting n e) s

-- startMount: with the checks passed and the command started, the process runs.
unfoldable pub launch : String → MountRequest → Option MountFault → Manager → Manager
launch v req (some e) s = reply v (failed e) s
launch v req none s = record s {
  phase = set_at v (launching req s.started) s.phase;
  started = 1 + s.started;
  owner = set_number s.started v s.owner;
}

-- stop after a start that failed: the start's error is returned whether or not the process ended.
unfoldable pub abort : String → ℕ → MountFault → Option MountFault → Manager → Manager
abort v n e none s = if s.done n then reply v (failed e) s else s
abort v n e (some timeout) s =
    reply v (failed e) (record s { abandoned = set_number n true s.abandoned })

-- Unmount after stop.
unfoldable pub stopped : String → MountEntry → Option MountFault → Manager → Manager
stopped v e none s = if s.done e.process then enter v (clearing e) s else s
stopped v e (some timeout) s = reply v (failed timeout) s

unfoldable pub store : String → MountEntry → Manager → Manager
store v e s = reply v (mounted e.local_socket) (record s { mounts = insert v e s.mounts })

-- The next phase of the call that holds the lock of `v`. A phase that waits for `done` stays until
-- it is closed.
unfoldable pub advance : String → Answers → Phase → Manager → Manager
unfolding remove_mount waited launch abort stopped store
advance v a free s = s
advance v a (awaiting req n) s = if s.done n then enter v (starting req) (remove_mount v s) else s
advance v a (starting req) s = launch v req (prepare a req) s
advance v a (launching req n) s = waited v req n (wait_for_mount a 10000) s
advance v a (aborting n e) s = abort v n e (stop a) s
advance v a (storing e) s = store v e s
advance v a (stopping e) s = stopped v e (stop a) s
advance v a (clearing e) s = reply v unmounted (remove_mount v s)

-- watchProcessExit, once `done` is closed: an entry that is no longer the watched one stays.
unfoldable pub watched : String → MountEntry → Option MountEntry → Manager → Manager
watched v e none s = s
watched v e (some existing) s =
    if eqb existing.process e.process then record s { mounts = erase v s.mounts } else s

unfoldable pub watch_process_exit : String → MountEntry → Manager → Manager
unfolding watched
watch_process_exit v e s = if s.done e.process then watched v e (lookup v s.mounts) s else s

-- Mount: a call gets the lock when it is free.
unfoldable pub locked_mount : MountRequest → Option MountFault → Phase → Manager → Manager
unfolding look
locked_mount req (some e) phase s = record s { replies = (req.volume_id, failed e) ∷ s.replies }
locked_mount req none free s = look req (lookup req.volume_id s.mounts) s
locked_mount req none phase s = s

unfoldable pub found : String → Option MountEntry → Manager → Manager
found v none s = reply v unmounted s
found v (some e) s = enter v (stopping e) s

-- Unmount
unfoldable pub locked_unmount : String → Phase → Manager → Manager
unfolding found
locked_unmount v free s = found v (lookup v s.mounts) s
locked_unmount v phase s = s

-- wait: the process exits, and then the target's unmount is over.
unfoldable pub exit : ℕ → Manager → Manager
exit n s = if ltb n s.started then record s { exited = set_number n true s.exited } else s

unfoldable pub finish : ℕ → Manager → Manager
finish n s = if s.exited n then record s { done = set_number n true s.done } else s

pub data Event : Type 0 where
  mounts_volume : MountRequest → Event
  unmounts_volume : String → Event
  advances : String → Answers → Event
  exits finishes : ℕ → Event
  watches : String → MountEntry → Event

unfoldable pub handle : Event → Manager → Manager
unfolding advance watch_process_exit locked_mount locked_unmount exit finish
handle (mounts_volume req) s =
    locked_mount req (validate_mount_request req) (s.phase req.volume_id) s
handle (unmounts_volume v) s =
    if v == ""
    then record s { replies = (v, failed (invalid "volumeId is required")) ∷ s.replies }
    else locked_unmount v (s.phase v) s
handle (advances v a) s = advance v a (s.phase v) s
handle (exits n) s = exit n s
handle (finishes n) s = finish n s
handle (watches v e) s = watch_process_exit v e s

unfoldable pub handle_all : List Event → Manager → Manager
unfolding handle
handle_all [] s = s
handle_all (event ∷ events) s = handle_all events (handle event s)

-- List: the entries whose process has not exited, in the order of the map.
unfoldable pub list_mounts : (ℕ → Bool) → Assoc MountEntry → List MountEntry
list_mounts exited [] = []
list_mounts exited ((v, e) ∷ mounts) =
    let rest = list_mounts exited mounts in if exited e.process then rest else e ∷ rest
