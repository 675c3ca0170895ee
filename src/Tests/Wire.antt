-- ===== src/Tests/Wire.antt =====
-- A codec of the mount service's messages: a message is a list of texts, and a text is its
-- characters, each marked, and an end mark.
use Prim.Native.Char.{Char, code}
use seaweedfs_csi_driver.Base.{
  String, Bool, true, false, Option, none, some, List, [], ◌∷◌, Assoc, ◌≡◌, refl, ap, ◌∙◌, eqb,
  if◌then◌else◌, ◌==◌,
}
use seaweedfs_csi_driver.Base.Exec.{Result, ok, err}
use seaweedfs_csi_driver.Host.{ListedMount}
use seaweedfs_csi_driver.MountManager.{MountRequest}
use seaweedfs_csi_driver.MountService.{Json, Codecs}
use seaweedfs_csi_driver.MountService.Transparent.{Carries, empty_omitted, omit_empty, AreCodecs}

put_text : String → String → String
put_text String.[] rest = String.◌∷◌ ";" rest
put_text (String.◌∷◌ c s) rest = String.◌∷◌ "," (String.◌∷◌ c (put_text s rest))

put_texts : List String → String
unfolding put_text
put_texts [] = ""
put_texts (w ∷ ws) = put_text w (put_texts ws)

onto_first : Char → List String → List String
onto_first c [] = []
onto_first c (w ∷ ws) = String.◌∷◌ c w ∷ ws

get_texts : String → List String
unfolding onto_first
get_texts String.[] = []
get_texts (String.◌∷◌ m String.[]) = "" ∷ []
get_texts (String.◌∷◌ m (String.◌∷◌ c s)) =
    let ended = get_texts (String.◌∷◌ c s) in
    let longer = get_texts s in if eqb (code m) b';' then "" ∷ ended else onto_first c longer

get_end : (rest : String) → get_texts (String.◌∷◌ ";" rest) ≡ "" ∷ get_texts rest
unfolding get_texts
get_end String.[] = refl
get_end (String.◌∷◌ c s) = refl

get-put_text : (w rest : String) → get_texts (put_text w rest) ≡ w ∷ get_texts rest
unfolding get_texts put_text
get-put_text String.[] rest = get_end rest
get-put_text (String.◌∷◌ c s) rest = ap (onto_first c) (get-put_text s rest)

get-put_texts : (ws : List String) → get_texts (put_texts ws) ≡ ws
unfolding put_texts get_texts
get-put_texts [] = refl
get-put_texts (w ∷ ws) = get-put_text w (put_texts ws) ∙ ap (λ vs. w ∷ vs) (get-put_texts ws)

abbrev flag : Bool → String
flag true = "yes"
flag false = ""

put_entries : Assoc String → List String
put_entries [] = []
put_entries ((k, v) ∷ m) = "k" ∷ k ∷ v ∷ put_entries m

get_entries : List String → Assoc String
get_entries (mark ∷ k ∷ v ∷ ws) = (k, v) ∷ get_entries ws
get_entries ws = []

get-put_entries : (m : Assoc String) → get_entries (put_entries m) ≡ m
unfolding get_entries put_entries
get-put_entries [] = refl
get-put_entries ((k, v) ∷ m) = ap (λ rest. (k, v) ∷ rest) (get-put_entries m)

-- Arguments, then the entries of a context.
put_args : List String → List String → List String
put_args [] rest = "." ∷ rest
put_args (w ∷ ws) rest = "a" ∷ w ∷ put_args ws rest

get_args : List String → List String × List String
get_args [] = ([], [])
get_args (mark ∷ []) = ([], [])
get_args (mark ∷ w ∷ ws) =
    let (args, rest) = get_args ws in if mark == "." then ([], w ∷ ws) else (w ∷ args, rest)

get-put_args : (args rest : List String) → get_args (put_args args rest) ≡ (args, rest)
unfolding get_args put_args
get-put_args [] [] = refl
get-put_args [] (w ∷ ws) = refl
get-put_args (a ∷ args) rest = ap (λ r. (a ∷ r.0, r.1)) (get-put_args args rest)

is_flag : String → Bool
is_flag w = w == "yes"

is_flag-flag : (b : Bool) → is_flag (flag b) ≡ b
unfolding is_flag
is_flag-flag true = refl
is_flag-flag false = refl

context_of : Assoc String → Option (Assoc String)
context_of [] = none
context_of (p ∷ m) = some (p ∷ m)

entries_of : Option (Assoc String) → Assoc String
entries_of none = []
entries_of (some m) = m

context-entries : (o : Option (Assoc String)) → context_of (entries_of o) ≡ empty_omitted o
unfolding context_of entries_of
context-entries none = refl
context-entries (some []) = refl
context-entries (some (p ∷ m)) = refl

request_texts : MountRequest → List String
unfolding put_args put_entries entries_of
request_texts r =
    r.volume_id
    ∷ r.target_path
    ∷ r.cache_dir
    ∷ r.local_socket
    ∷ flag r.read_only
    ∷ put_args r.mount_args (put_entries (entries_of r.volume_context))

as_request : List String → Result String MountRequest
unfolding get_args get_entries context_of is_flag
as_request (volume_id ∷ target ∷ cache ∷ socket ∷ ro ∷ ws) =
    let (args, entries) = get_args ws in
    ok (record {
      volume_id = volume_id;
      target_path = target;
      cache_dir = cache;
      mount_args = args;
      local_socket = socket;
      volume_context = context_of (get_entries entries);
      read_only = is_flag ro;
    })
as_request ws = err "unexpected end of JSON input"

mount_texts : ListedMount → List String
unfolding put_entries
mount_texts m =
    m.volume_id
    ∷ m.target_path
    ∷ m.cache_dir
    ∷ m.local_socket
    ∷ flag m.read_only
    ∷ put_entries m.volume_context

as_mount : List String → ListedMount
unfolding get_entries is_flag
as_mount (volume_id ∷ target ∷ cache ∷ socket ∷ ro ∷ ws) = record {
  volume_id = volume_id;
  target_path = target;
  cache_dir = cache;
  local_socket = socket;
  volume_context = get_entries ws;
  read_only = is_flag ro;
}
as_mount ws = record {
  volume_id = "";
  target_path = "";
  cache_dir = "";
  local_socket = "";
  volume_context = [];
  read_only = false;
}

mounts_texts : List ListedMount → List String
unfolding mount_texts put_texts
mounts_texts [] = []
mounts_texts (m ∷ ms) = put_texts (mount_texts m) ∷ mounts_texts ms

as_mounts : List String → List ListedMount
unfolding as_mount get_texts
as_mounts [] = []
as_mounts (w ∷ ws) = as_mount (get_texts w) ∷ as_mounts ws

as-mounts_texts : (ms : List ListedMount) → as_mounts (mounts_texts ms) ≡ ms
unfolding as_mounts mounts_texts as_mount mount_texts
as-mounts_texts [] = refl
as-mounts_texts (m ∷ ms) = rw (get-put_texts (mount_texts m)) (
    rw (get-put_entries m.volume_context)
      (rw (is_flag-flag m.read_only) (ap (λ xs. m ∷ xs) (as-mounts_texts ms))))

as-request_texts : (r : MountRequest) → as_request (request_texts r) ≡ ok (omit_empty r)
unfolding as_request request_texts
as-request_texts r = rw (get-put_args r.mount_args (put_entries (entries_of r.volume_context))) (
    rw (get-put_entries (entries_of r.volume_context))
      (rw (is_flag-flag r.read_only) (rw (context-entries r.volume_context) refl)))

-- A message of one text.
one_text : List String → String
one_text [] = ""
one_text (w ∷ ws) = w

single : {A : Type 0} (text : A → String) (from : String → A) → Json A
unfolding put_texts get_texts one_text
single text from = record {
  encode = λ a. some (put_texts (text a ∷ []));
  decode = λ s. ok (from (one_text (get_texts s)));
}

single-Carries :
    {A : Type 0} (text : A → String) (from : String → A) (a : A)
    → from (text a) ≡ a
    → Carries (single text from) a a
unfolding single one_text
single-Carries text from a e =
    (put_texts (text a ∷ []), refl, rw (get-put_texts (text a ∷ [])) (ap ok e))

abbrev pub wire : Codecs
unfolding put_texts get_texts request_texts as_request mounts_texts as_mounts single
wire = record {
  mount_request = record {
    encode = λ r. some (put_texts (request_texts r));
    decode = λ s. as_request (get_texts s);
  };
  mount_response = single (λ r. r.local_socket) (λ s. record { local_socket = s });
  unmount_request = single (λ r. r.volume_id) (λ s. record { volume_id = s });
  unmount_response = single (λ r. "") (λ s. record {});
  list_response = record {
    encode = λ r. some (put_texts (mounts_texts r.mounts));
    decode = λ s. ok (record { mounts = as_mounts (get_texts s) });
  };
  error_response = single (λ e. e.message) (λ s. record { message = s });
}

pub wire-AreCodecs : AreCodecs wire
unfolding wire put_texts get_texts request_texts as_request mounts_texts as_mounts single
wire-AreCodecs = record {
  mount_request = λ r. (
    put_texts (request_texts r),
    refl,
    ap as_request (get-put_texts (request_texts r)) ∙ as-request_texts r,
  );
  mount_response =
      λ a. single-Carries (λ r. r.local_socket) (λ s. record { local_socket = s }) a refl;
  unmount_request = λ a. single-Carries (λ r. r.volume_id) (λ s. record { volume_id = s }) a refl;
  unmount_response = λ a. single-Carries (λ r. "") (λ s. record {}) a refl;
  list_response = λ a. (
    put_texts (mounts_texts a.mounts),
    refl,
    ap (λ ws. ok (record { mounts = as_mounts ws })) (get-put_texts (mounts_texts a.mounts))
        ∙ ap (λ ms. ok (record { mounts = ms })) (as-mounts_texts a.mounts),
  );
  error_response = λ e. single-Carries (λ x. x.message) (λ s. record { message = s }) e refl;
}
