-- ===== src/Remount/Setns.antt =====
-- The system calls of one remount inside a container: remountViaSetns of
-- pkg/driver/container_remount_linux.go, on the state of the thread that makes them.
pub mod Confined
use seaweedfs_csi_driver.Base.{
  ℕ, String, Bool, true, false, ◌&&◌, not, Option, none, some, List, [], ◌∷◌, if◌then◌else◌, ◌==◌,
}
use seaweedfs_csi_driver.Host.{Fault}
use seaweedfs_csi_driver.MountInfo.{bind_source}

-- The mount namespace of the driver, and the one of a process.
pub data Namespace : Type 0 where
  own_namespace : Namespace
  namespace_of : ℕ → Namespace

pub data SysCall : Type 0 where
  unshare_fs open_own_namespace : SysCall
  open_tree move_mount unmount_detach remount_read_only : String → SysCall
  open_namespace_of : ℕ → SysCall
  set_namespace : Namespace → SysCall

pub data Descriptor : Type 0 where
  tree_fd own_fd container_fd : Descriptor

-- A call, the namespace of the thread when it made it, and the error.
pub record Made : Type 0 where
  pub call : SysCall
  pub inside : Namespace
  pub fault : Option Fault

pub record Thread : Type 0 where
  pub locked : Bool
  pub namespace : Namespace
  pub files : List Descriptor
  pub log : List Made

-- The kernel: the error of a call after the calls made before.
abbrev pub Kernel : Type 0
Kernel = List Made → SysCall → Option Fault

-- An error that the function returns: the call that failed.
pub record SetnsError : Type 0 where
  pub call : SysCall
  pub fault : Fault

-- The namespace after a call.
unfoldable pub moved : SysCall → Option Fault → Namespace → Namespace
moved (set_namespace n) none old = n
moved call fault old = old

unfoldable pub made : SysCall → Option Fault → Thread → Thread
unfolding moved
made c fault s = record s {
  namespace = moved c fault s.namespace;
  log = (record { call = c; inside = s.namespace; fault = fault }) ∷ s.log;
}

-- A call whose error is only logged.
unfoldable pub ignored : Kernel → SysCall → Thread → Thread
unfolding made
ignored kernel c s = made c (kernel s.log c) s

abbrev pub Outcome : Type 0
Outcome = Option SetnsError × Thread

-- if err := c; err != nil { return err }, with what follows otherwise.
unfoldable pub checked : SysCall → Option Fault → (Thread → Outcome) → Thread → Outcome
checked c (some f) next s = (some (record { call = c; fault = f }), s)
checked c none next s = next s

unfoldable pub require : Kernel → SysCall → (Thread → Outcome) → Thread → Outcome
unfolding checked made
require kernel c next s = let fault = kernel s.log c in checked c fault next (made c fault s)

-- What follows with a deferred call.
unfoldable pub deferring : (Thread → Thread) → (Thread → Outcome) → Thread → Outcome
deferring last body s = let (r, s') = body s in (r, last s')

abbrev pub open_file : Descriptor → Thread → Thread
open_file fd s = record s { files = fd ∷ s.files }

-- The deferred Close of the file opened last.
unfoldable pub close_last : List Descriptor → List Descriptor
close_last [] = []
close_last (fd ∷ files) = files

unfoldable pub close_file : Thread → Thread
unfolding close_last
close_file s = record s { files = close_last s.files }

-- A call that opens a file, which is closed when the function returns.
unfoldable pub with_file : Kernel → SysCall → Descriptor → (Thread → Outcome) → Thread → Outcome
unfolding require deferring close_file
with_file kernel c fd body s = require kernel c (λ t. deferring close_file body (open_file fd t)) s

-- The second remount, for a read-only mount.
unfoldable pub make_read_only : Kernel → String → Bool → Thread → Outcome
unfolding ignored
make_read_only kernel path true s = (none, ignored kernel (remount_read_only path) s)
make_read_only kernel path false s = (none, s)

-- In the container's namespace: the stale mount is detached and the fresh one attached.
unfoldable pub replace_mount : Kernel → String → Bool → Thread → Outcome
unfolding ignored require make_read_only
replace_mount kernel path read_only s =
    require kernel (move_mount path) (make_read_only kernel path read_only)
      (ignored kernel (unmount_detach path) s)

unfoldable pub inside_container : Kernel → ℕ → String → Bool → Thread → Outcome
unfolding require deferring ignored replace_mount
inside_container kernel pid path read_only s =
    require kernel (set_namespace (namespace_of pid))
      (deferring (ignored kernel (set_namespace own_namespace))
        (replace_mount kernel path read_only))
      s

unfoldable pub with_source : Kernel → ℕ → String → String → Bool → Thread → Outcome
unfolding with_file inside_container
with_source kernel pid path source read_only s =
    with_file kernel (open_tree source) tree_fd
      (with_file kernel open_own_namespace own_fd (
        with_file kernel (open_namespace_of pid) container_fd
          (inside_container kernel pid path read_only)))
      s

unfoldable pub unlock_thread : Thread → Thread
unlock_thread s = record s { locked = false }

-- remountViaSetns.
unfoldable pub remount_via_setns : Kernel → ℕ → String → String → String → Bool → Thread → Outcome
unfolding require deferring with_source unlock_thread
remount_via_setns kernel pid path staging_path sub_path read_only s =
    deferring unlock_thread
      (require kernel unshare_fs
        (with_source kernel pid path (bind_source staging_path sub_path) read_only))
      (record s { locked = true })
