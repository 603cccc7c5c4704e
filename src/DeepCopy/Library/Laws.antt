-- ===== src/DeepCopy/Library/Laws.antt =====
-- Maps of JSON values are copied deep.
use soyplane.DeepCopy.Memory.{IsDeep, by_deep_copy}
use soyplane.DeepCopy.Memory.Laws.{map_of-IsDeep, by_deep_copy-IsDeep}
use soyplane.DeepCopy.Library.{Library, IsDeepLibrary, json_map}

pub json_map-IsDeep : (E : Library) → IsDeepLibrary E → IsDeep (json_map E)
json_map-IsDeep E deep = map_of-IsDeep (by_deep_copy E.json) (by_deep_copy-IsDeep E.json deep.json)
