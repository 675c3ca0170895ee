-- ===== src/Remount/Setns/Confined.antt =====
-- The thread of remountViaSetns when the function returns, and where it made its mount calls.
use mathlib.Core.List.{Memᴰ}
use seaweedfs_csi_driver.Base.{
  ℕ, String, Bool, true, false, Option, none, some, List, [], ◌∷◌, All, ◌≡◌, ◌≢◌, ◌⊎◌, inl, inr,
  refl, sym, ap, ◌∙◌, arith,
}
use seaweedfs_csi_driver.Host.{Fault}
use seaweedfs_csi_driver.MountInfo.{bind_source}
use seaweedfs_csi_driver.Remount.Setns.{
  Namespace, own_namespace, namespace_of, SysCall, unshare_fs, move_mount, unmount_detach,
  remount_read_only, set_namespace, Descriptor, tree_fd, own_fd, container_fd, Made, Thread, Kernel,
  SetnsError, moved, made, ignored, Outcome, checked, require, deferring, open_file, close_last,
  close_file, with_file, make_read_only, replace_mount, inside_container, with_source,
  unlock_thread, remount_via_setns,
}

abbrev is_mounting : SysCall → Bool
is_mounting (move_mount path) = true
is_mounting (unmount_detach path) = true
is_mounting (remount_read_only path) = true
is_mounting _ = false

-- A call that changes mounts is made in the namespace of the process.
abbrev pub IsContained : ℕ → Made → Type 0
IsContained pid m = is_mounting m.call ≡ true → m.inside ≡ namespace_of pid

-- The last call is a failed return to the driver's namespace.
abbrev pub IsStuck : List Made → Type 0
IsStuck [] = ⊥
IsStuck (m ∷ log) = (m.call ≡ set_namespace own_namespace) × (m.fault ≢ none)

abbrev attached_at : ℕ → String → Made
attached_at pid path = record { call = move_mount path; inside = namespace_of pid; fault = none }

-- A return of the function, or of a part of it, that began on `s`.
pub record IsReturned (pid : ℕ) (path : String) (s : Thread) (o : Outcome) : Type 0 where
  pub files : o.1.files ≡ s.files
  pub home : (o.1.namespace ≡ own_namespace) ⊎ IsStuck o.1.log
  pub contained : All (IsContained pid) o.1.log
  pub attached : o.0 ≡ none → Memᴰ (attached_at pid path) o.1.log

-- The same, within the namespace of the process.
record IsReplaced (pid : ℕ) (path : String) (s : Thread) (o : Outcome) : Type 0 where
  files : o.1.files ≡ s.files
  contained : All (IsContained pid) o.1.log
  attached : o.0 ≡ none → Memᴰ (attached_at pid path) o.1.log

module _ (kernel : Kernel) (pid : ℕ) (path : String) where
  make_read_only-IsReplaced :
      (read_only : Bool) (s : Thread)
      → s.namespace ≡ namespace_of pid
      → All (IsContained pid) s.log
      → Memᴰ (attached_at pid path) s.log
      → IsReplaced pid path s (make_read_only kernel path read_only s)
  unfolding make_read_only ignored made
  make_read_only-IsReplaced true s here c m = record {
    files = refl;
    contained = (λ e. here, c);
    attached = λ e. Memᴰ.tail m;
  }
  make_read_only-IsReplaced false s here c m = record {
    files = refl;
    contained = c;
    attached = λ e. m;
  }

  attach-IsReplaced :
      (read_only : Bool) (s : Thread) (o : Option Fault)
      → s.namespace ≡ namespace_of pid
      → All (IsContained pid) s.log
      → IsReplaced pid path s (
          checked
            (move_mount path)
            o
            (make_read_only kernel path read_only)
            (made (move_mount path) o s))
  unfolding checked made moved
  attach-IsReplaced read_only s (some f) here c = record {
    files = refl;
    contained = (λ e. here, c);
    attached = λ e. absurd (ground (arith, e));
  }
  attach-IsReplaced read_only s none here c =
      let t = made (move_mount path) none s in
      let r =
        make_read_only-IsReplaced read_only t here (λ e. here, c)
          (Memᴰ.head
            (ap (λ n. record { call = move_mount path; inside = n; fault = none }) (sym here))) in
      record { files = r.files; contained = r.contained; attached = r.attached }

  replace_mount-IsReplaced :
      (read_only : Bool) (s : Thread)
      → s.namespace ≡ namespace_of pid
      → All (IsContained pid) s.log
      → IsReplaced pid path s (replace_mount kernel path read_only s)
  unfolding replace_mount require ignored made moved
  replace_mount-IsReplaced read_only s here c =
      let t = ignored kernel (unmount_detach path) s in
      let r = attach-IsReplaced read_only t (kernel t.log (move_mount path)) here (λ e. here, c) in
      record { files = r.files; contained = r.contained; attached = r.attached }

  -- The deferred return to the driver's namespace.
  restored :
      (o : Option Fault) (s : Thread) (r : Option SetnsError) (u : Thread)
      → IsReplaced pid path s (r, u)
      → IsReturned pid path s (r, made (set_namespace own_namespace) o u)
  unfolding made moved
  restored none s r u h = record {
    files = h.files;
    home = inl refl;
    contained = (λ e. absurd (ground (arith, e)), h.contained);
    attached = λ e. Memᴰ.tail (h.attached e);
  }
  restored (some f) s r u h = record {
    files = h.files;
    home = inr (refl, λ e. absurd (ground (arith, e)));
    contained = (λ e. absurd (ground (arith, e)), h.contained);
    attached = λ e. Memᴰ.tail (h.attached e);
  }

  entered :
      (read_only : Bool) (s : Thread) (o : Option Fault)
      → s.namespace ≡ own_namespace
      → All (IsContained pid) s.log
      → IsReturned pid path s (
          checked
            (set_namespace (namespace_of pid))
            o
            (deferring
              (ignored kernel (set_namespace own_namespace))
              (replace_mount kernel path read_only))
            (made (set_namespace (namespace_of pid)) o s))
  unfolding checked made moved deferring ignored
  entered read_only s (some f) here c = record {
    files = refl;
    home = inl here;
    contained = (λ e. absurd (ground (arith, e)), c);
    attached = λ e. absurd (ground (arith, e));
  }
  entered read_only s none here c =
      let t = made (set_namespace (namespace_of pid)) none s in
      let (r, u) = replace_mount kernel path read_only t in
      let h =
        restored (kernel u.log (set_namespace own_namespace)) t r u
          (replace_mount-IsReplaced read_only t refl (λ e. absurd (ground (arith, e)), c)) in
      record { files = h.files; home = h.home; contained = h.contained; attached = h.attached }

  -- A part that may begin in the driver's namespace.
  abbrev Serves : (Thread → Outcome) → Type 0
  Serves body =
      (s : Thread)
      → s.namespace ≡ own_namespace
      → All (IsContained pid) s.log
      → IsReturned pid path s (body s)

  inside_container-Serves : (read_only : Bool) → Serves (inside_container kernel pid path read_only)
  unfolding inside_container require
  inside_container-Serves read_only s here c =
      entered read_only s (kernel s.log (set_namespace (namespace_of pid))) here c

  -- A call that neither moves the thread nor changes mounts.
  record IsPlain (c : SysCall) : Type 0 where
    stays : (o : Option Fault) (n : Namespace) → moved c o n ≡ n
    harmless : is_mounting c ≡ false

  checked-IsReturned :
      (c : SysCall) (o : Option Fault) (body : Thread → Outcome) (s : Thread)
      → IsPlain c
      → Serves body
      → s.namespace ≡ own_namespace
      → All (IsContained pid) s.log
      → IsReturned pid path s (checked c o body (made c o s))
  unfolding checked made
  checked-IsReturned c (some f) body s plain serves here k = record {
    files = refl;
    home = inl (plain.stays (some f) s.namespace ∙ here);
    contained = (λ e. absurd (ground (arith, e, plain.harmless)), k);
    attached = λ e. absurd (ground (arith, e));
  }
  checked-IsReturned c none body s plain serves here k =
      let h =
        serves (made c none s) (plain.stays none s.namespace ∙ here)
          (λ e. absurd (ground (arith, e, plain.harmless)), k) in
      record { files = h.files; home = h.home; contained = h.contained; attached = h.attached }

  require-Serves :
      (c : SysCall) (body : Thread → Outcome)
      → IsPlain c
      → Serves body
      → Serves (require kernel c body)
  unfolding require
  require-Serves c body plain serves s here k =
      checked-IsReturned c (kernel s.log c) body s plain serves here k

  opened-Serves :
      (fd : Descriptor) (body : Thread → Outcome)
      → Serves body
      → Serves (λ t. deferring close_file body (open_file fd t))
  unfolding deferring close_file close_last
  opened-Serves fd body serves s here k =
      let h = serves (open_file fd s) here k in
      record {
        files = ap close_last h.files;
        home = h.home;
        contained = h.contained;
        attached = h.attached;
      }

  with_file-Serves :
      (c : SysCall) (fd : Descriptor) (body : Thread → Outcome)
      → IsPlain c
      → Serves body
      → Serves (with_file kernel c fd body)
  unfolding with_file
  with_file-Serves c fd body plain serves = require-Serves c _ plain (opened-Serves fd body serves)

  with_source-Serves :
      (source : String) (read_only : Bool) → Serves (with_source kernel pid path source read_only)
  unfolding with_source moved
  with_source-Serves source read_only =
      with_file-Serves _ tree_fd _ (record { stays = λ o n. refl; harmless = refl })
        (with_file-Serves _ own_fd _ (record { stays = λ o n. refl; harmless = refl })
          (with_file-Serves _ container_fd _ (record { stays = λ o n. refl; harmless = refl })
            (inside_container-Serves read_only)))

  -- Whatever the kernel answers: when remountViaSetns, begun in the driver's mount namespace, returns,
  -- the thread is unlocked and has closed every file that it opened, and it is back in the driver's
  -- namespace or its last call is the failed return to it. Every call of it that changes mounts was
  -- made in the container's namespace, and if it returns no error, the mount was attached at the
  -- container's path there.
  pub remount_via_setns-IsReturned :
      (staging_path sub_path : String) (read_only : Bool) (s : Thread)
      → s.namespace ≡ own_namespace
      → All (IsContained pid) s.log
      → (let o = remount_via_setns kernel pid path staging_path sub_path read_only s in
          (o.1.locked ≡ false) × IsReturned pid path s o)
  unfolding remount_via_setns deferring unlock_thread moved
  remount_via_setns-IsReturned staging_path sub_path read_only s here k =
      let h =
        require-Serves unshare_fs _ (record { stays = λ o n. refl; harmless = refl })
          (with_source-Serves (bind_source staging_path sub_path) read_only)
          (record s { locked = true }) here k in
      (
        refl,
        record { files = h.files; home = h.home; contained = h.contained; attached = h.attached },
      )
