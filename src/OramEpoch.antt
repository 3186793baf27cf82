-- ===== src/OramEpoch.antt =====
-- doram_t2_3pc/oram_epoch.py: the authorization of an epoch, and the markers of the epochs that a
-- server has used. The digest of a configuration is an argument. A directory of marker files is a
-- list of the markers in it: a marker is named by its server and its epoch, and holds the
-- authorization; whether the file can be written is an argument of the operation, and the removal of a
-- marker whose writing failed is taken to succeed.
pub mod Authorized
pub mod Once
pub mod Progress
use fed_kg_rag_secure_impl.Prelude.{
  ℕ, ◌+◌, ◌*◌, String, Bool, true, false, Option, none, some, List, [], ◌∷◌, not, ltb, ◌==◌, ◌&&◌,
  length, str_eq, if◌then◌else◌,
}
use fed_kg_rag_secure_impl.Python.{Result, ok, err, value_error, os_error, ◌>>=◌, ◌>>◌, raise_if}
use fed_kg_rag_secure_impl.Pages.{frontier_slots}
use fed_kg_rag_secure_impl.Pages.Directory.{RelationPageConfig}

pub record KgOramEpochAuthorization : Type 0 where
  pub epoch_id : String
  pub config_digest : String
  pub query_count : ℕ
  pub accesses_per_owner : ℕ
  pub global_frontier : ℕ
  pub bound_violations : ℕ

unfoldable pub access_count_per_owner : RelationPageConfig → ℕ → ℕ
access_count_per_owner config query_count =
    query_count * (1 + frontier_slots config.pages (length config.base.owners))

-- `self == expected`
unfoldable pub same_authorization : KgOramEpochAuthorization → KgOramEpochAuthorization → Bool
same_authorization a b =
    str_eq a.epoch_id b.epoch_id
    && (str_eq a.config_digest b.config_digest
        && (a.query_count == b.query_count
            && (a.accesses_per_owner == b.accesses_per_owner
                && (a.global_frontier == b.global_frontier
                    && a.bound_violations == b.bound_violations))))

abbrev pub or_raise : Option ℕ → Result ℕ
or_raise none = err value_error
or_raise (some frontier) = ok frontier

module _ (digest : RelationPageConfig → String) where
  unfoldable pub accepted : RelationPageConfig → String → ℕ → ℕ → Result KgOramEpochAuthorization
  accepted config epoch_id query_count bound_violations = do
    frontier ← or_raise config.pages.global_frontier
    raise_if (not (bound_violations == 0)) value_error
    raise_if (ltb query_count 1) value_error
    ok record {
      epoch_id = epoch_id;
      config_digest = digest config;
      query_count = query_count;
      accesses_per_owner = access_count_per_owner config query_count;
      global_frontier = frontier;
      bound_violations = 0;
    }

  unfoldable pub validate :
      KgOramEpochAuthorization → RelationPageConfig → String → ℕ → Result (Unit {0})
  validate authorization config epoch_id query_count = do
    expected ← accepted config epoch_id query_count 0
    raise_if (not (same_authorization authorization expected)) value_error

pub record Marker : Type 0 where
  pub server : ℕ
  pub epoch_id : String

abbrev pub Directory : Type 0
Directory = List (Marker × KgOramEpochAuthorization)

abbrev pub same_marker : Marker → Marker → Bool
same_marker a b = a.server == b.server && str_eq a.epoch_id b.epoch_id

-- `os.open` with `O_CREAT | O_EXCL` fails when the file exists.
unfoldable pub exists : Marker → Directory → Bool
exists marker [] = false
exists marker ((other, written) ∷ directory) =
    if same_marker marker other then true else exists marker directory

-- `marker.unlink()`
unfoldable pub unlink : Marker → Directory → Directory
unlink marker [] = []
unlink marker ((other, written) ∷ directory) =
    let rest = unlink marker directory in
    if same_marker marker other then rest else (other, written) ∷ rest

-- The new file is created empty, then written; a failed writing removes it again.
unfoldable pub consume_epoch_once :
    Directory → ℕ → KgOramEpochAuthorization → Bool → Result Marker × Directory
consume_epoch_once directory server authorization writes =
    let marker : Marker = record { server = server; epoch_id = authorization.epoch_id } in
    let created = (marker, authorization) ∷ directory in
    if not (ltb server 3)
    then (err value_error, directory)
    else (if exists marker directory
        then (err value_error, directory)
        else (if writes then (ok marker, created) else (err os_error, unlink marker created)))
