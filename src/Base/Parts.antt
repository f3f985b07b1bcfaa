-- ===== src/Base/Parts.antt =====
-- The value of a Go interface that stands for a part which may be off.
use mathlib.Core.Option.{Option, none, some}

-- nil, a nil pointer of some type, or something to call.
pub data Part {ℓ} (A : Type ℓ) : Type ℓ where
  absent typed_nil : Part A
  present : A → Part A

-- The guard of `New` in internal/web and internal/actions: a nil pointer is off too.
unfoldable pub usable {ℓ} : {A : Type ℓ} → Part A → Option A
usable Part.absent = none
usable Part.typed_nil = none
usable (Part.present a) = some a
