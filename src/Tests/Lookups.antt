-- ===== src/Tests/Lookups.antt =====
-- The theorems on the filers and the lookups of a volume at concrete inputs.
use seaweedfs_csi_driver.Base.{
  ℕ, String, Bool, true, false, Option, none, some, List, [], ◌∷◌, ◌++◌, All, Assoc, lookup, ◌≡◌,
  ◌≢◌, ◌∙◌, inl, inr, Bool-cases, subst, ap, refl, arith, ◌&&◌, eq_iff, if◌then◌else◌, ◌==◌,
}
use seaweedfs_csi_driver.Base.Exec.{ok, err}
use seaweedfs_csi_driver.GoPath.{is_abs}
use seaweedfs_csi_driver.Node.{not_found}
use seaweedfs_csi_driver.K8s.{
  PersistentVolume, Cluster, the_only, Picked, HasHandle, resolve_persistent_volume, fast_path,
  resolve_persistent_volume_only,
}
use seaweedfs_csi_driver.VolumeStats.Usage.{StatsCalls, statfs_failed, node_get_volume_stats}
use seaweedfs_csi_driver.VolumeStats.Foreign.{foreign_path_refused}
use seaweedfs_csi_driver.VacStore.{
  Http, HttpRequest, HttpResponse, get, put, delete, write_entry, read_entry,
}
use seaweedfs_csi_driver.VacStore.Path.{vac_root, vac_path, vac_path_injective}
use seaweedfs_csi_driver.VacStore.Persist.{IsStore, IsSameMap, first_up, read-write_entry}
use seaweedfs_csi_driver.Samples.{sample_volume}

-- The ids "a/b" and "a" in bytes.
abbrev nested_id : List ℕ
nested_id = b'a' ∷ b'/' ∷ b'b' ∷ []

abbrev plain_id : List ℕ
plain_id = b'a' ∷ []

vac_path_injective_example :
    (vac_path nested_id ≡ vac_path plain_id → nested_id ≡ plain_id)
    × ((name : List ℕ) × (vac_path nested_id ≡ vac_root ++ name) × All (λ c. c ≢ b'/') name)
vac_path_injective_example =
    vac_path_injective nested_id plain_id (omega arith, (omega arith, (omega arith, tt)))
      (omega arith, tt)

abbrev volume_named : String → String → PersistentVolume
volume_named name handle = record {
  name = name;
  csi =
      some (record {
        driver = "seaweedfs-csi-driver";
        volume_handle = handle;
        volume_attributes = [];
      });
  storage = none;
}

abbrev cluster : Cluster
cluster = record {
  is_dns1123_subdomain = λ name. true;
  get = λ name. none;
  list = some (volume_named "pv-1" "/data/x" ∷ volume_named "pv-2" "/data/y" ∷ []);
}

resolve_persistent_volume_only_example :
    (found : List PersistentVolume) × Picked
      (HasHandle "seaweedfs-csi-driver" "/data/y")
      (volume_named "pv-1" "/data/x" ∷ volume_named "pv-2" "/data/y" ∷ [])
      found
    × (resolve_persistent_volume "seaweedfs-csi-driver" "/data/y" cluster ≡ the_only found)
unfolding fast_path
resolve_persistent_volume_only_example =
    resolve_persistent_volume_only "seaweedfs-csi-driver" "/data/y" cluster
      (volume_named "pv-1" "/data/x" ∷ volume_named "pv-2" "/data/y" ∷ []) refl refl

abbrev idle_calls : StatsCalls
idle_calls = record {
  lock_error = none;
  wait_error = none;
  is_healthy = λ path. true;
  statfs = λ path. err statfs_failed;
}

foreign_path_refused_example :
    node_get_volume_stats idle_calls "/buckets/b" "/staging/a"
      (("/buckets/a", sample_volume) ∷ [])
      []
    ≡ (err not_found, [])
unfolding lookup is_abs
foreign_path_refused_example =
    foreign_path_refused idle_calls "/buckets/b" "/staging/a" "/buckets/a" sample_volume
      (("/buckets/a", sample_volume) ∷ []) []
      (λ same. absurd (ground (arith, eq_iff "/buckets/b" "", same))) refl refl refl (inl refl)
      (
        (λ h. (
          λ same. absurd (ground (arith, eq_iff "/buckets/a" "/buckets/b", same)),
          λ same. absurd (ground (arith, eq_iff "/buckets/a" "", same)),
        )),
        tt,
      )

-- One document, and filers of which all but one are down; the encoder sorts the keys.
abbrev document : String
document = "dlm:true,ttl:1d"

abbrev sorted : Assoc String
sorted = ("dlm", "true") ∷ ("ttl", "1d") ∷ []

abbrev encode : Assoc String → Option String
encode ((k, v) ∷ (j, u) ∷ []) =
    if k == "dlm" && v == "true" && j == "ttl" && u == "1d"
    then some document
    else if k == "ttl" && v == "1d" && j == "dlm" && u == "true"
    then some document
    else none
encode _ = none

abbrev decode : String → Option (Assoc String)
decode body = if body == document then some sorted else none

abbrev answer_to : Bool → HttpRequest → String → Option HttpResponse × String
answer_to false req w = (none, w)
answer_to true req w = elim req.method [
  | put ↦ (some (record { status_code = 201; body = "" }), req.body)
  | get ↦ (some (record { status_code = 200; body = w }), w)
  | delete ↦ (some (record { status_code = 204; body = "" }), "")
]

abbrev one_document : Http String
one_document = record {
  to_addresses = λ s. s ∷ [];
  send = λ req w. answer_to (req.filer == "filer-2") req w;
  marshal = encode;
  unmarshal = decode;
}

abbrev unsorted : Assoc String
unsorted = ("ttl", "1d") ∷ ("dlm", "true") ∷ []

sorted-unsorted : IsSameMap sorted unsorted
unfolding lookup
sorted-unsorted key = elim (Bool-cases ("dlm" == key)) [
  | inl e ↦
      let same : "dlm" ≡ key = ground (arith, e, eq_iff "dlm" key) in
      subst (λ k. lookup k sorted ≡ lookup k unsorted) same refl
  | inr e ↦ rw e refl
]

entry : (k l v w : String) → k == l && v == w ≡ true → ◌≡◌ {A = String × String} (l, w) (k, v)
entry k l v w h =
    let key : l ≡ k = ground (arith, h, eq_iff k l) in
    let value : w ≡ v = ground (arith, h, eq_iff v w) in
    ap (λ x. (x, w)) key ∙ ap (λ x. (k, x)) value

pair_back :
    (p q : String × String) (body : String)
    → encode (p ∷ q ∷ []) ≡ some body
    → (document ≡ body) × IsSameMap sorted (p ∷ q ∷ [])
pair_back (k, v) (j, u) body h =
    elim (Bool-cases ((k == "dlm" && v == "true") && (j == "ttl" && u == "1d"))) [
      | inl e ↦ (
        ground (arith, h, e),
        subst (IsSameMap sorted)
            (ap (λ x. x ∷ ("ttl", "1d") ∷ []) (entry k "dlm" v "true" (ground (arith, e)))
              ∙ ap (λ x. (k, v) ∷ x ∷ []) (entry j "ttl" u "1d" (ground (arith, e))))
            (λ key. refl),
      )
      | inr e ↦ elim (Bool-cases ((k == "ttl" && v == "1d") && (j == "dlm" && u == "true"))) [
        | inl f ↦ (
          ground (arith, h, e, f),
          subst (IsSameMap sorted)
              (ap (λ x. x ∷ ("dlm", "true") ∷ []) (entry k "ttl" v "1d" (ground (arith, f)))
                ∙ ap (λ x. (k, v) ∷ x ∷ []) (entry j "dlm" u "true" (ground (arith, f))))
              sorted-unsorted,
        )
        | inr f ↦ absurd (ground (arith, h, e, f))
      ]
    ]

sorted_back :
    (params : Assoc String) (body : String)
    → encode params ≡ some body
    → (document ≡ body) × IsSameMap sorted params
sorted_back [] body h = absurd (ground (arith, h))
sorted_back (p ∷ []) body h = absurd (ground (arith, h))
sorted_back (p ∷ q ∷ []) body h = pair_back p q body h
sorted_back (p ∷ q ∷ r ∷ params) body h = absurd (ground (arith, h))

abbrev one_document-IsStore : IsStore one_document
one_document-IsStore = record {
  is_up = λ f. f == "filer-2";
  stored = λ w f v. w;
  down = λ f v body m w h. rw h refl;
  puts = λ f v body w h. (body, record { status_code = 201; body = "" }, rw h refl, inr refl, refl);
  gets = λ f v w h full. rw h refl;
  reads_back = λ params body h.
      let (made, map) = sorted_back params body h in
      (
        λ e. absurd (let empty = made ∙ e in ground (arith, eq_iff document "", empty)),
        (sorted, subst (λ b. decode b ≡ some sorted) made refl, map),
      );
}

read-write_entry_example :
    (w : String) × (write_entry one_document ("filer-1" ∷ "filer-2" ∷ []) "/buckets/a" unsorted ""
      ≡ (ok tt, w))
    × ((back : Assoc String) × (read_entry one_document ("filer-1" ∷ "filer-2" ∷ []) "/buckets/a" w
          ≡ (ok (some back), w))
        × IsSameMap back unsorted)
unfolding first_up
read-write_entry_example =
    read-write_entry one_document one_document-IsStore ("filer-1" ∷ "filer-2" ∷ []) "filer-2"
      "/buckets/a" document "ttl" "1d" (("dlm", "true") ∷ []) "" refl refl
