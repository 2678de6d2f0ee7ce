-- ===== src/Gather/Registry.antt =====
-- `GetGatherer` and `RegisterGatherer` of gather/gatherer.go.
use go_gather.Base.{Bool, Option, none, some, List}
use go_gather.Base.Text.{Text}
use go_gather.Exec.{plain, Result, ok, err}
use go_gather.Expand.Registry.{get, register}

-- The error for no gatherer.
abbrev found : {E : Type 0} → Option E → Result E
found (some gatherer) = ok gatherer
found none = err (plain "no gatherer found for URI: %s")

-- `GetGatherer`
unfoldable pub get_gatherer : {E : Type 0} → (E → Text → Bool) → List E → Text → Result E
unfolding get
get_gatherer matcher gatherers uri = found (get matcher gatherers uri)

-- `RegisterGatherer`
unfoldable pub register_gatherer : {E : Type 0} → List E → E → List E
unfolding register
register_gatherer gatherers g = register gatherers g
