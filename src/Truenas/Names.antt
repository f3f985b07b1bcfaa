-- ===== src/Truenas/Names.antt =====
-- Which disk sources have a dataset.
use Prim.Native.String.{◌++◌}
use pademelon.Base.{
  String, ◌≡◌, Option, none, some, ◌≢◌, arith, eq_iff, strip_prefix, strip_prefix-append,
}
use pademelon.Truenas.{zvol_prefix, some_dataset, dataset_from_disk_source}

some_dataset_lem :
    (o : Option String) (ds : String) → some_dataset o ≡ some ds → (o ≡ some ds) × (ds ≢ "")
unfolding some_dataset
some_dataset_lem none ds h = cc
some_dataset_lem (some rest) ds h = ground (arith, eq_iff rest "")

-- A disk source has a dataset only if it is the path of a zvol, and then the dataset is the rest
-- of the path, never empty.
pub dataset_from_disk_source_sound :
    (source ds : String)
    → dataset_from_disk_source source ≡ some ds
    → (zvol_prefix ++ ds ≡ source) × (ds ≢ "")
unfolding dataset_from_disk_source
dataset_from_disk_source_sound source ds h =
    let (stripped, some_text) = some_dataset_lem (strip_prefix zvol_prefix source) ds h in
    (strip_prefix-append zvol_prefix source stripped, some_text)
