-- ===== src/Storage.antt =====
-- packages/api/src/storage/memory.ts, `MemoryStorage`: the objects that are stored under a key. The
-- presigned addresses, which it refuses, are left out. A buffer is the list of its bytes.
use skrun.Base.{ℕ, String, Bool, Option, List, [], string_eq}
use skrun.JsMap
use skrun.JsMap.{JsMap}

abbrev pub Buffer : Type 0
Buffer = List ℕ

pub record MemoryStorage : Type 0 where
  pub store : JsMap String Buffer

unfoldable pub put : MemoryStorage → String → Buffer → MemoryStorage
put s key content = record s { store = JsMap.set s.store key content }

unfoldable pub get : MemoryStorage → String → Option Buffer
get s key = JsMap.get s.store key

unfoldable pub delete : MemoryStorage → String → MemoryStorage
delete s key = record s { store = JsMap.delete s.store key }

unfoldable pub exists : MemoryStorage → String → Bool
exists s key = JsMap.has s.store key

abbrev pub clear : MemoryStorage → MemoryStorage
clear s = record { store = [] }
