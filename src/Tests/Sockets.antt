-- ===== src/Tests/Sockets.antt =====
-- The theorems on the mount service's socket and on the statfs probes at concrete inputs.
use seaweedfs_csi_driver.Base.{
  String, false, none, some, List, [], ◌∷◌, ◌≡◌, true, ◌≢◌, refl, arith, if◌then◌else◌, ◌==◌, All,
  ◌≤◌, eq_iff,
}
use seaweedfs_csi_driver.Base.Exec.{Result, ok, err}
use seaweedfs_csi_driver.Host.{plain_fault}
use seaweedfs_csi_driver.MountManager.{MountRequest}
use seaweedfs_csi_driver.MountService.{Service, MountResponse, serve}
use seaweedfs_csi_driver.MountService.Client.{Transport, client_mount, client_unmount, client_list}
use seaweedfs_csi_driver.MountService.Transparent.{as_client, omit_empty, calls_transparent}
use seaweedfs_csi_driver.Probes.{
  Event, arrives, resets, returns, drops, closes, receives, perform, perform_all, no_probes,
}
use seaweedfs_csi_driver.Probes.Reset.{IsRenewed, answers-IsRenewed}
use seaweedfs_csi_driver.Probes.OneFlight.{flights, one_flight_between_resets}
use seaweedfs_csi_driver.Base.Take.{Pairwise}
use seaweedfs_csi_driver.Health.Sweep.{
  ticks, launches, stops, waits, finishes, returned, happen_all, new_monitor,
}
use seaweedfs_csi_driver.Health.Sweep.Single.{one_check_per_volume}
use seaweedfs_csi_driver.Tests.Wire.{wire, wire-AreCodecs}

-- A service that keeps the ids of its volumes, and refuses one without a name.
mounted_at : String → List String → Result String MountResponse × List String
mounted_at volume_id m =
    if volume_id == ""
    then (err "volumeId is required", m)
    else (ok (record { local_socket = "/run/a.sock" }), volume_id ∷ m)

abbrev small_service : Service (List String)
unfolding mounted_at
small_service = record {
  mount = λ req m. mounted_at req.volume_id m;
  unmount = λ req m. (ok (record {}), []);
  list = λ m. record { mounts = [] };
}

abbrev direct : Transport (List String)
direct = record {
  send = λ call m. (let (response, m') = serve wire small_service call m in (some response, m'));
  rest_of = λ body. some "";
}

abbrev nameless : MountRequest
nameless = record {
  volume_id = "";
  target_path = "/staging/a";
  cache_dir = "/cache/a";
  mount_args = "-dir=/staging/a" ∷ [];
  local_socket = "/run/a.sock";
  volume_context = some [];
  read_only = false;
}

calls_transparent_example :
    (client_mount direct wire nameless []
      ≡ as_client (small_service.mount (omit_empty nameless) []))
    × (client_unmount direct wire (record { volume_id = "a" }) []
        ≡ as_client (small_service.unmount (record { volume_id = "a" }) []))
    × (client_list direct wire [] ≡ (ok (record { mounts = [] }), []))
unfolding mounted_at
calls_transparent_example =
    calls_transparent direct wire wire-AreCodecs small_service (λ call m. refl) nameless
      (record { volume_id = "a" }) [] (λ e. ground (arith, eq_iff "volumeId is required" "", e)) tt

-- A caller waits for a hung probe; after the reset another one comes.
abbrev hung : List Event
hung = arrives "/staging/a" ∷ []

abbrev renewed : List Event
renewed =
    arrives "/staging/a"
    ∷ returns 0 (some plain_fault)
    ∷ drops 0
    ∷ closes 0
    ∷ returns 1 none
    ∷ drops 1
    ∷ closes 1
    ∷ receives 1
    ∷ []

answers-IsRenewed_example :
    All
      (IsRenewed "/staging/a" (perform_all no_probes hung) renewed)
      (perform_all (perform (perform_all no_probes hung) (resets "/staging/a")) renewed).answers
answers-IsRenewed_example = answers-IsRenewed "/staging/a" hung renewed

-- The first probe comes back, orphaned, while the second one is in flight, and a third caller comes.
abbrev orphaned : List Event
orphaned = arrives "/staging/a" ∷ resets "/staging/a" ∷ []

abbrev busy : List Event
busy = arrives "/staging/a" ∷ returns 0 none ∷ drops 0 ∷ closes 0 ∷ arrives "/staging/a" ∷ []

one_flight_between_resets_example :
    flights "/staging/a"
      (perform_all no_probes orphaned).fresh
      (perform_all (perform_all no_probes orphaned) busy).in_flight
    ≤ 1
one_flight_between_resets_example =
    one_flight_between_resets "/staging/a" orphaned busy (tt, (tt, (tt, (tt, (tt, tt)))))

-- The cleanup returns during a sweep, which then starts a check.
one_check_per_volume_example :
    let s =
      happen_all new_monitor
        (ticks ("a" ∷ "b" ∷ []) ∷ launches ∷ finishes "a" ∷ stops ∷ waits ∷ []) in
    Pairwise (λ v w. v ≢ w) s.running
    × (s.loop ≡ returned → s.running ≡ [] → (happen_all s (launches ∷ [])).running ≡ [])
one_check_per_volume_example =
    one_check_per_volume (ticks ("a" ∷ "b" ∷ []) ∷ launches ∷ finishes "a" ∷ stops ∷ waits ∷ [])
      (launches ∷ [])

check_after_cleanup :
    (happen_all new_monitor
      (ticks ("a" ∷ "b" ∷ []) ∷ launches ∷ finishes "a" ∷ stops ∷ waits ∷ launches ∷ [])).running
    ≡ "b" ∷ []
unfolding happen_all
check_after_cleanup = refl

cleanup_returned :
    (happen_all new_monitor
      (ticks ("a" ∷ "b" ∷ []) ∷ launches ∷ finishes "a" ∷ stops ∷ waits ∷ launches ∷ [])).cleaned
    ≡ true
unfolding happen_all
cleanup_returned = refl
