-- ===== src/Truenas.antt =====
-- internal/truenas/truenas.go: the names that the middleware client deals in, and how it reads
-- the texts of errors. Calls, connection and messages have parts of their own.
pub mod Names
pub mod Calls
pub mod Client
pub mod Storage
pub mod Wire
use Prim.Native.String.{◌++◌}
use pademelon.Base.{
  String, Bool, true, false, Option, none, some, ◌||◌, ◌==◌, if◌then◌else◌, contains, strip_prefix,
}

abbrev pub zvol_prefix : String
zvol_prefix = "/dev/zvol/"

unfoldable pub some_dataset : Option String → Option String
some_dataset none = none
some_dataset (some ds) = if ds == "" then none else some ds

-- `DatasetFromDiskSource`; `none` for a disk that is no zvol.
unfoldable pub dataset_from_disk_source : String → Option String
unfolding some_dataset
dataset_from_disk_source source = some_dataset (strip_prefix zvol_prefix source)

-- `isNotFoundErr`.
unfoldable pub is_not_found_err : String → Bool
is_not_found_err message = contains message "ENOENT" || contains message "not found"

abbrev pub api_path : String
api_path = "/api/current"

-- `dialURL`.
unfoldable pub dial_url : String → String
dial_url host =
    if contains host "://"
    then host
    else if contains host ":"
    then "wss://" ++ host ++ api_path
    else "wss://" ++ (host ++ ":443") ++ api_path
