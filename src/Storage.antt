-- ===== src/Storage.antt =====
-- storage/storage.go, with the keys of agent/tools_persist.go and the listing of controller/adopt.go. What S3
-- answers is given: the body of an object or its absence, and the pages of a listing.
pub mod Persisted
use turnhive.Base.{
  ℕ, zero, suc, ◌*◌, Bool, true, false, ◌||◌, Option, none, some, List, [], ◌∷◌, ◌++◌, Bytes, codes,
  ltb, length, drop, has_prefix, ◌==◌, bytes_eq, if◌then◌else◌,
}
use turnhive.Base.Assoc.{insert}
use turnhive.Session.State.{PersistedObject}
use turnhive.History.{Fetched, found, missing, fetch_failed}

-- Store.key
unfoldable pub store_key : Bytes → Bytes → Bytes
store_key prefix k = if prefix == [] then k else prefix ++ (codes "/" ++ k)

-- strings.TrimPrefix
unfoldable pub trim_prefix : Bytes → Bytes → Bytes
trim_prefix s prefix = if has_prefix s prefix then drop (length prefix) s else s

abbrev pub max_get_object_size : ℕ
max_get_object_size = 64 * 1024 * 1024

-- The answer to a GetObject call, with the reading of its body.
pub data ObjectAnswer : Type 0 where
  body : Bytes → ObjectAnswer
  no_such_key : ObjectAnswer
  get_failed read_failed : Bytes → ObjectAnswer

-- Store.GetObject: `exceeds` is the text of its error about the size.
unfoldable pub get_object : Bytes → ObjectAnswer → Fetched
get_object exceeds no_such_key = missing
get_object exceeds (get_failed err) = fetch_failed err
get_object exceeds (read_failed err) = fetch_failed err
get_object exceeds (body text) =
    if ltb max_get_object_size (length text) then fetch_failed exceeds else found text

-- One object of a listing: ObjectInfo, with the whole key before the store's prefix is stripped.
pub record ObjectInfo : Type 0 where
  pub key : Bytes
  pub size : ℕ
  pub last_modified : ℕ

abbrev pub stripped : Bytes → ObjectInfo → ObjectInfo
stripped prefix o = record {
  key = trim_prefix o.key (store_key prefix []);
  size = o.size;
  last_modified = o.last_modified;
}

-- A page of ListObjectsV2, and whether more pages follow.
pub record Page : Type 0 where
  pub contents : List ObjectInfo
  pub is_truncated : Bool

abbrev pub strip_all : Bytes → List ObjectInfo → List ObjectInfo
strip_all prefix [] = []
strip_all prefix (o ∷ os) = stripped prefix o ∷ strip_all prefix os

abbrev pub behind_page : List ObjectInfo → Option (List ObjectInfo) → Option (List ObjectInfo)
behind_page infos none = none
behind_page infos (some rest) = some (infos ++ rest)

-- Store.ListObjects on the answers to its calls, none of them an error if there is a page; a listing whose
-- answers end too early is an error.
unfoldable pub list_objects : Bytes → List (Option Page) → Option (List ObjectInfo)
list_objects prefix [] = none
list_objects prefix (none ∷ answers) = none
list_objects prefix (some page ∷ answers) =
    let rest = behind_page (strip_all prefix page.contents) (list_objects prefix answers) in
    if page.is_truncated then rest else some (strip_all prefix page.contents)

-- persistedPrefix
unfoldable pub persisted_prefix : Bytes → Bytes
persisted_prefix session_id = codes "sessions/" ++ (session_id ++ codes "/persisted/")

-- The object key of the persist tool for a cleaned path.
unfoldable pub persisted_key : Bytes → Bytes → Bytes
persisted_key session_id p = persisted_prefix session_id ++ trim_prefix p (codes "/")

abbrev pub persisted_object : Bytes → ObjectInfo → PersistedObject
persisted_object p o = record { path = p; object_key = o.key; size = o.size; at = o.last_modified }

abbrev pub add_listed :
    Bytes → ObjectInfo → List (Bytes × PersistedObject) → List (Bytes × PersistedObject)
add_listed p o m = if p == [] || p == o.key then m else insert p (persisted_object p o) m

-- The loop of listPersistedObjects, with the map so far.
unfoldable pub add_persisted :
    Bytes → List ObjectInfo → List (Bytes × PersistedObject) → List (Bytes × PersistedObject)
add_persisted session_id [] m = m
add_persisted session_id (o ∷ os) m =
    add_persisted session_id os (add_listed (trim_prefix o.key (persisted_prefix session_id)) o m)

abbrev pub manifest_of : Bytes → Option (List ObjectInfo) → Option (List (Bytes × PersistedObject))
manifest_of session_id none = none
manifest_of session_id (some infos) = some (add_persisted session_id infos [])

unfoldable pub list_persisted_objects :
    Bytes → Bytes → List (Option Page) → Option (List (Bytes × PersistedObject))
list_persisted_objects prefix session_id answers =
    manifest_of session_id (list_objects prefix answers)
