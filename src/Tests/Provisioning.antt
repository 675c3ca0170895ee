-- ===== src/Tests/Provisioning.antt =====
-- The theorems on provisioning at concrete inputs.
use Prim.Native.Char.{code}
use seaweedfs_csi_driver.Base.{
  eqb, String, Bool, true, false, Option, none, some, List, [], ◌∷◌, lookup, insert, overlay, ◌≡◌,
  ◌≢◌, inl, inr, Bool-cases, refl, arith, eq_iff, if◌then◌else◌, ◌==◌,
}
use seaweedfs_csi_driver.Base.Exec.{ok, ◌>>=◌}
use seaweedfs_csi_driver.Strconv.{pos}
use seaweedfs_csi_driver.GoPath.{is_abs, clean, dir, base, join, join_path}
use seaweedfs_csi_driver.Driver.{
  Url, Urls, single_node_writer, create_delete_volume, decode_volume_id, encode_volume_id,
  validate_controller_service_request,
}
use seaweedfs_csi_driver.Params.{
  text_at, validate_mutable_parameters, unknown_keys, invalid_values, validate_writeback_dlm_combo,
}
use seaweedfs_csi_driver.Provision.{
  S3Names, driver_filers, filers_at, Filers, Provisioner, CreateRequest, CreatedVolume,
  create_volume, create_at, place_of, place_at, place_under, sanitize_volume_id_s3, hash_if_long,
  bucket_name, created_context, resolve_volume, client_of, parent_and_name, mkdir, with_capacity,
  accessible_topology,
}
use seaweedfs_csi_driver.Provision.Delete.{delete_volume}
use seaweedfs_csi_driver.Provision.Own.{Since}
use seaweedfs_csi_driver.Provision.Created.{TakesBack, delete_created_volume-TakesBack}
use seaweedfs_csi_driver.Provision.Pages.{IsDirectory, Lists, lists_nothing, lists_last, breaks_off}
use seaweedfs_csi_driver.Provision.Complete.{gone, with_forgotten, delete_volume_complete}
use seaweedfs_csi_driver.GoPath.Split.{IsComponent}
use seaweedfs_csi_driver.Provision.Ids.{AreUrls, filers_named}
use seaweedfs_csi_driver.Provision.Places.{IsPlaced, created_volume_resolves}
use seaweedfs_csi_driver.Samples.{sample_driver, plain_urls}

abbrev plain_names : S3Names
plain_names = record {
  to_lower = λ s. s;
  len = λ s. 0;
  first_bytes = λ n s. s;
  sha1_hex = λ s. s;
  is_bucket_name = λ s. true;
  replace_unsafe = λ s. s;
  join_dot = λ s t. s;
}

-- A bucket of two children, listed one at a time.
abbrev rest_of : String → List String
rest_of after =
    if after == "" then "one" ∷ "two" ∷ [] else if after == "one" then "two" ∷ [] else []

abbrev page_at : String → List (String × Bool)
page_at after =
    if after == "" then ("one", false) ∷ [] else if after == "one" then ("two", true) ∷ [] else []

abbrev two_children : Filers
two_children = record {
  dir_buckets = λ log client. ok "";
  seaweed_list = λ log client path after limit. ok (page_at after);
  exists = λ log client path name. ok true;
  outcome = λ log call. none;
}

abbrev provisioner : Provisioner
provisioner = record {
  driver = record sample_driver { cscap = create_delete_volume ∷ [] };
  urls = plain_urls;
  names = plain_names;
  filers = two_children;
  has_store = λ v. true;
  log = [];
}

page_listed : (after : String) → Lists rest_of (rest_of after) (page_at after)
page_listed after = elim (Bool-cases (after == "")) [
  | inl e ↦
      rw e (
        breaks_off "one" ("two" ∷ []) (λ same. absurd (ground (arith, eq_iff "one" "", same))) refl)
  | inr e ↦ elim (Bool-cases (after == "one")) [
    | inl f ↦
        rw e (rw f (lists_last "two" (λ same. absurd (ground (arith, eq_iff "two" "", same)))))
    | inr f ↦ rw e (rw f lists_nothing)
  ]
]

abbrev two_children-IsDirectory : IsDirectory driver_filers "/buckets/a" two_children rest_of
two_children-IsDirectory = record {
  lists = λ log after. (page_at after, refl, page_listed after);
  accepts = λ log child. refl;
}

delete_volume_complete_example : delete_volume 3 "/buckets/a" provisioner ≡ (
  ok true,
  with_forgotten "/buckets/a" true
      (gone driver_filers "/buckets/a" ("one" ∷ "two" ∷ []) provisioner),
)
unfolding resolve_volume decode_volume_id parent_and_name is_abs dir clean base join_path
    validate_controller_service_request
delete_volume_complete_example =
    delete_volume_complete 3 "/buckets/a" driver_filers "/buckets/a" "" rest_of provisioner
      (λ same. absurd (ground (arith, eq_iff "/buckets/a" "", same))) refl refl refl refl
      two_children-IsDirectory refl (omega arith)

-- A net/url that prints the URL of the filer f:8888 with a mark in front of the path.
abbrev parse_marked : String → Option Url
parse_marked String.[] = none
parse_marked (String.◌∷◌ c s) =
    if eqb (code c) b'!'
    then some (record { scheme = "filer"; host = "f:8888"; path = s })
    else none

abbrev marked_urls : Urls
marked_urls = record { parse = parse_marked; print = λ u. String.◌∷◌ "!" u.path }

plain_is_unmarked : (path : String) → is_abs path ≡ true → parse_marked path ≡ none
unfolding is_abs
plain_is_unmarked String.[] h = refl
plain_is_unmarked (String.◌∷◌ c s) h = ground (arith, h)

abbrev marked_urls-AreUrls : AreUrls marked_urls "f:8888"
marked_urls-AreUrls = record {
  plain_path = λ path h. rw (plain_is_unmarked path h) tt;
  reads_back = λ path given h. refl;
}

abbrev create_a : CreateRequest
create_a = record {
  name = "pvc-a";
  parameters = ("filer", "f:8888") ∷ [];
  mutable_parameters = [];
  capabilities = some (single_node_writer ∷ []);
  required_bytes = pos 1000;
  topology = record { requisite = []; preferred = [] };
}

abbrev marked_provisioner : Provisioner
marked_provisioner = record provisioner { urls = marked_urls }

abbrev created_a : CreatedVolume
created_a = record {
  volume_id = "!/buckets/pvc-a";
  capacity_bytes = pos 1000;
  volume_context = created_context create_a (place_of plain_names "pvc-a" create_a.parameters);
  accessible = [];
}

is_not : (s t : String) → (s == t) ≡ false → s ≢ t
is_not s t e same = ground (arith, eq_iff s t, e, same)

buckets-IsComponent : IsComponent "buckets"
buckets-IsComponent = (
  (refl, (refl, (refl, (refl, (refl, (refl, (refl, tt))))))),
  is_not "buckets" "" refl,
  is_not "buckets" "." refl,
  is_not "buckets" ".." refl,
)

pvc_a-IsComponent : IsComponent "pvc-a"
pvc_a-IsComponent = (
  (refl, (refl, (refl, (refl, (refl, tt))))),
  is_not "pvc-a" "" refl,
  is_not "pvc-a" "." refl,
  is_not "pvc-a" ".." refl,
)

create_a-IsPlaced : IsPlaced plain_names create_a
unfolding text_at lookup place_under sanitize_volume_id_s3 join
create_a-IsPlaced = inr (
  refl,
  (
    "buckets",
    [],
    record { parent = refl; above = (buckets-IsComponent, tt); name = pvc_a-IsComponent },
  ),
)

created_volume_resolves_example :
    (create_volume create_a marked_provisioner).1.log
    ≡ mkdir (filers_at "f:8888") "/buckets" "pvc-a" ∷ []
unfolding create_volume text_at lookup clean is_abs created_context insert with_capacity overlay
    validate_mutable_parameters resolve_volume decode_volume_id parent_and_name dir base create_at
    validate_controller_service_request ◌>>=◌ encode_volume_id unknown_keys invalid_values
    validate_writeback_dlm_combo place_at place_of place_under sanitize_volume_id_s3 hash_if_long
    bucket_name join_path accessible_topology
created_volume_resolves_example =
    created_volume_resolves create_a marked_provisioner
      (create_volume create_a marked_provisioner).1 created_a (filers_at "f:8888") "/buckets/pvc-a"
      create_a-IsPlaced marked_urls-AreUrls refl refl

delete_created_volume-TakesBack_example :
    Since
      (TakesBack created_a.volume_id
        (filers_named (
          text_at "filer"
            (created_context create_a (place_of plain_names create_a.name create_a.parameters))))
        "/buckets"
        "pvc-a")
      (create_volume create_a marked_provisioner).1.log
      (delete_volume 3 created_a.volume_id (create_volume create_a marked_provisioner).1).1.log
unfolding create_volume text_at lookup clean is_abs created_context insert with_capacity overlay
    validate_mutable_parameters create_at validate_controller_service_request ◌>>=◌ encode_volume_id
    unknown_keys invalid_values validate_writeback_dlm_combo place_at place_of place_under
    sanitize_volume_id_s3 hash_if_long bucket_name join_path accessible_topology client_of
delete_created_volume-TakesBack_example =
    delete_created_volume-TakesBack 3 create_a marked_provisioner
      (create_volume create_a marked_provisioner).1 (create_volume create_a marked_provisioner).1
      created_a (filers_at "f:8888") "/buckets" "pvc-a" create_a-IsPlaced marked_urls-AreUrls refl
      refl refl
