-- ===== src/VolumeStats/Shared.antt =====
-- What NodeGetVolumeStats reports, with the calls that requests share.
use seaweedfs_csi_driver.Base.{
  zero, suc, String, Bool, true, false, if◌then◌else◌, none, List, [], ◌∷◌, Assoc, ◌≡◌, ◌≢◌, refl,
  sym, ◌∙◌, ap, subst, arith, ltb, eq_iff, Bool-cases, inl, inr, ◌==◌,
}
use seaweedfs_csi_driver.Base.Exec.{Result, ok, err}
use seaweedfs_csi_driver.Base.Take.{All-map}
use seaweedfs_csi_driver.Strconv.{ℤ, pos, negsuc}
use seaweedfs_csi_driver.Host.{Volume}
use seaweedfs_csi_driver.Node.{Code, invalid_argument}
use seaweedfs_csi_driver.VolumeStats.{validate_volume_stats_path}
use seaweedfs_csi_driver.VolumeStats.Usage.{
  Statfs, VolumeUsage, StatfsError, no_such_path, statfs_failed, StatsCalls, UsageEntry, bytes,
  inodes, StatsRequest, Active, usage_of, read_volume_usage, read_volume_usage_for_stats,
  is_positive, report, reported, with_reported, find_call, joined, read_volume_usage_with_timeout,
  unless_refused, node_get_volume_stats,
}
use seaweedfs_csi_driver.VolumeStats.Flights.{
  StatsEvent, asks, in_flight, Asked, IsRead-later, joined-Joins, unless_refused-ok,
  in_flight-IsRead,
}

-- The entry of the inodes, where the file system counts them.
abbrev pub inode_entries : ℤ → VolumeUsage → List UsageEntry
inode_entries (pos (suc n)) u =
    (record { unit = inodes; total = u.inodes; used = u.inodes_used; available = u.inodes_free })
    ∷ []
inode_entries _ u = []

-- The entries are those of the path's statfs, and the path is a healthy mount.
pub record IsReport (calls : StatsCalls) (path : String) (us : List UsageEntry) : Type 0 where
  pub healthy : calls.is_healthy path ≡ true
  pub statfs : Statfs
  pub answered : calls.statfs path ≡ ok statfs
  pub entries :
      us
      ≡ (record {
        unit = bytes;
        total = (usage_of statfs).capacity_bytes;
        used = (usage_of statfs).used_bytes;
        available = (usage_of statfs).available_bytes;
      })
        ∷ inode_entries (usage_of statfs).inodes (usage_of statfs)

report-entries :
    (u : VolumeUsage) (n : ℤ)
    → u.inodes ≡ n
    → report u
      ≡ (record {
        unit = bytes;
        total = u.capacity_bytes;
        used = u.used_bytes;
        available = u.available_bytes;
      })
        ∷ inode_entries n u
unfolding report is_positive
report-entries u (pos zero) e = rw e refl
report-entries u (pos (suc n)) e =
    let positive : ltb 0 (suc n) ≡ true = ground arith in rw e (rw positive refl)
report-entries u (negsuc n) e = rw e refl

read-IsReport :
    (calls : StatsCalls) (path : String) (u : VolumeUsage)
    → read_volume_usage_for_stats calls path ≡ ok u
    → IsReport calls path (report u)
unfolding read_volume_usage_for_stats read_volume_usage
read-IsReport calls path u q = elim (Bool-cases (calls.is_healthy path)) [
  | inl h ↦ go (calls.statfs path) h refl (ground (arith, q, h))
  | inr h ↦ absurd (ground (arith, q, h))
]
  where
    go :
        (r : Result StatfsError Statfs)
        → calls.is_healthy path ≡ true
        → calls.statfs path ≡ r
        → read_volume_usage r ≡ ok u
        → IsReport calls path (report u)
    go (err no_such_path) h e q = absurd (ground (arith, q))
    go (err statfs_failed) h e q = absurd (ground (arith, q))
    go (ok f) h e q =
        let same : usage_of f ≡ u = ground (arith, q) in
        record {
          healthy = h;
          statfs = f;
          answered = e;
          entries = ap report (sym same) ∙ report-entries (usage_of f) (usage_of f).inodes refl;
        }

reported-ok :
    (r : Result Code VolumeUsage) (us : List UsageEntry)
    → reported r ≡ ok us
    → (u : VolumeUsage) × (r ≡ ok u) × (report u ≡ us)
unfolding reported
reported-ok (err c) us q = absurd (ground (arith, q))
reported-ok (ok u) us q = (u, refl, ground (arith, q))

-- The tests of an empty id and an empty path.
given :
    (a b : Bool) (c : Code) (x y z : Result Code (List UsageEntry) × Active) (us : List UsageEntry)
    → x.0 ≡ err c
    → y.0 ≡ err c
    → (if a then x else if b then y else z).0 ≡ ok us
    → (a ≡ false) × (b ≡ false) × (z.0 ≡ ok us)
given true b c x y z us p q h = absurd (ground (arith, p, h))
given false true c x y z us p q h = absurd (ground (arith, q, h))
given false false c x y z us p q h = (refl, refl, h)

-- Whatever requests for statistics came before, calls of which may still be in flight, and whatever the
-- calls answer: NodeGetVolumeStats returns a usage only if the path is one that
-- validateVolumeStatsPath accepts for the volume. The usage is then, number by number, the one of a
-- statfs of this very path that this request made, or an earlier request for the same volume and the
-- same path, at a time when the path was a healthy mount.
pub node_get_volume_stats-IsReport :
    (events : List StatsEvent) (calls : StatsCalls) (volume_id path : String)
    (volumes : Assoc Volume) (us : List UsageEntry)
    → (node_get_volume_stats calls volume_id path volumes (in_flight events)).0 ≡ ok us
    → (volume_id ≢ "")
      × (path ≢ "")
      × (validate_volume_stats_path volume_id path volumes ≡ none)
      × ((origin : StatsCalls) × Asked
            (asks calls volume_id path volumes ∷ events)
            origin
            volume_id
            path
          × IsReport origin path us)
unfolding node_get_volume_stats with_reported read_volume_usage_with_timeout
node_get_volume_stats-IsReport events calls volume_id path volumes us q =
    let active = in_flight events in
    let r : StatsRequest = record { volume_id = volume_id; volume_path = path } in
    let call = joined calls r active (find_call r active) in
    let checked =
      unless_refused (validate_volume_stats_path volume_id path volumes) active
        (with_reported call) in
    let (has_id, has_path, locked) =
      given (volume_id == "") (path == "") invalid_argument (err invalid_argument, active)
        (err invalid_argument, active) (unless_refused calls.lock_error active checked) us refl refl
        q in
    let named : volume_id ≢ "" = λ e. absurd (ground (arith, has_id, e, eq_iff volume_id "")) in
    let placed : path ≢ "" = λ e. absurd (ground (arith, has_path, e, eq_iff path "")) in
    let (free, valid) =
      unless_refused-ok calls volume_id path volumes events calls.lock_error active checked us
        locked in
    let (accepted, read) =
      unless_refused-ok calls volume_id path volumes events
        (validate_volume_stats_path volume_id path volumes) active (with_reported call) us valid in
    let (u, gave, same) = reported-ok call.0 us read in
    let (origin, asked, made) =
      (joined-Joins calls volume_id path volumes events active (find_call r active)
          (All-map _ _ _ (IsRead-later (asks calls volume_id path volumes) events)
            (in_flight-IsRead events))
          refl).0
        u gave in
    (
      named,
      placed,
      accepted,
      (origin, asked, subst (IsReport origin path) same (read-IsReport origin path u (sym made))),
    )
