-- ===== src/Bundle.antt =====
-- packages/schema/src/bundle-tar.ts, the rules on the names in a bundle, and packages/api/src/utils/bundle.ts,
-- what the server takes out of one. The archive is given as its entries, a name as its text, and
-- `toString("utf-8")` is a parameter. A path is the list of its segments, the last one first, as
-- `join` and `resolve` of Node leave it; `separator` is that of the platform. The directory is new and empty
-- at the start; a write that the file system refuses ends the extraction.
pub mod Paths
pub mod Inside
use skrun.Base.{
  ℕ, String, Bool, true, false, not, ◌&&◌, ◌||◌, Option, none, some, List, [], ◌∷◌, ◌++◌, ◌==◌,
  string_eq, nat_eq, leb, any, contains, if◌then◌else◌, length,
}
use skrun.JsMap
use skrun.JsMap.{JsMap}
use skrun.Storage.{Buffer}
use skrun.Network.Codes.{codes, same, strip, ends_with}

abbrev pub agent_bundle_excludes : List String
agent_bundle_excludes =
    "node_modules" ∷ ".git" ∷ "dist" ∷ ".env" ∷ ".DS_Store" ∷ "__pycache__" ∷ ".pytest_cache"
    ∷ "venv" ∷ ".venv" ∷ []

abbrev pub is_prefixed : Option (List ℕ) → Bool
is_prefixed none = false
is_prefixed (some rest) = true

abbrev pub starts_with : List ℕ → List ℕ → Bool
starts_with prefix s = is_prefixed (strip prefix s)

unfoldable pub is_excluded_entry : String → Bool
is_excluded_entry name =
    contains agent_bundle_excludes name
    || ((starts_with (codes ".") (codes name) && not (name == "."))
        || (ends_with (codes ".secret") (codes name) || ends_with (codes ".agent") (codes name)))

abbrev pub backslash : ℕ
backslash = 92

-- `[\\/]`
abbrev pub is_separator : ℕ → Bool
is_separator c = c == b'/' || c == backslash

abbrev pub is_letter : ℕ → Bool
is_letter c = (leb b'a' c && leb c b'z') || (leb b'A' c && leb c b'Z')

-- `^[a-zA-Z]:[\\/]`
unfoldable pub is_drive : List ℕ → Bool
is_drive [] = false
is_drive (x ∷ []) = false
is_drive (x ∷ y ∷ []) = false
is_drive (x ∷ y ∷ z ∷ r) = is_letter x && (y == b':' && is_separator z)

abbrev pub add_to_head : ℕ → List (List ℕ) → List (List ℕ)
add_to_head c [] = (c ∷ []) ∷ []
add_to_head c (w ∷ ws) = (c ∷ w) ∷ ws

-- `split` at each code that passes the test.
unfoldable pub split : (ℕ → Bool) → List ℕ → List (List ℕ)
split separator [] = [] ∷ []
split separator (c ∷ s) =
    let rest = split separator s in if separator c then [] ∷ rest else add_to_head c rest

abbrev pub dot : List ℕ
dot = b'.' ∷ []

abbrev pub dot_dot : List ℕ
dot_dot = b'.' ∷ b'.' ∷ []

unfoldable pub path_escapes : List ℕ → Bool
unfolding is_drive split
path_escapes p =
    (starts_with (codes "/") p || starts_with (backslash ∷ []) p)
    || (is_drive p || any (same dot_dot) (split is_separator p))

abbrev pub link_escapes : Option String → Bool
link_escapes none = false
link_escapes (some linkname) = path_escapes (codes linkname)

unfoldable pub is_unsafe_name : String → Option String → Bool
is_unsafe_name name linkname = path_escapes (codes name) || link_escapes linkname

pub record UnpackedAgentEntry : Type 0 where
  pub name : String
  pub type : String
  pub linkname : Option String
  pub content : Buffer

unfoldable pub is_skippable : UnpackedAgentEntry → Bool
is_skippable entry =
    if entry.type == "symlink" || entry.type == "link"
    then true
    else is_unsafe_name entry.name entry.linkname

abbrev pub FsPath : Type 0
FsPath = List (List ℕ)

abbrev pub up : FsPath → FsPath
up [] = []
up (w ∷ at) = at

-- A segment that is empty or a dot stays, two dots go up.
abbrev pub is_idle : List ℕ → Bool
is_idle w = same [] w || same dot w

abbrev pub step : FsPath → List ℕ → FsPath
step at w = if is_idle w then at else if same dot_dot w then up at else w ∷ at

unfoldable pub walk : FsPath → List (List ℕ) → FsPath
walk at [] = at
walk at (w ∷ ws) = walk (step at w) ws

unfoldable pub same_path : FsPath → FsPath → Bool
same_path [] [] = true
same_path [] (w ∷ q) = false
same_path (v ∷ p) [] = false
same_path (v ∷ p) (w ∷ q) = same v w && same_path p q

-- `startsWith(resolve(dir) + sep)`
unfoldable pub is_below : FsPath → FsPath → Bool
unfolding same_path
is_below dir [] = false
is_below dir (w ∷ at) = same_path dir at || is_below dir at

-- The files written, in order, and the map of texts.
pub record Extracted : Type 0 where
  pub written : List (FsPath × Buffer)
  pub files : JsMap String String

-- The loop goes on with what there is, or it throws, and the files written so far stay.
pub data Extraction : Type 0 where
  extracted : Extracted → Extraction
  failed : Extracted → Extraction

abbrev pub and_then : Extraction → (Extracted → Extraction) → Extraction
and_then (extracted x) next = next x
and_then (failed x) next = failed x

-- `files[name] = text`; a text assigned to `__proto__` is dropped.
unfoldable pub set_property : JsMap String String → String → String → JsMap String String
set_property files name text = if name == "__proto__" then files else JsMap.set files name text

unfoldable pub ends_in : (ℕ → Bool) → List ℕ → Bool
ends_in separator [] = false
ends_in separator (c ∷ []) = separator c
ends_in separator (c ∷ d ∷ s) = ends_in separator (d ∷ s)

-- A file lies in the way of a path below it, and in a directory that the path names.
abbrev pub in_the_way : FsPath → FsPath × Buffer → Bool
in_the_way at file = is_below at file.0 || is_below file.0 at

module _ (text : Buffer → String) where
  unfoldable pub extract_loop : JsMap String String → List UnpackedAgentEntry → JsMap String String
  extract_loop files [] = files
  extract_loop files (entry ∷ entries) =
      extract_loop
        (if is_skippable entry then files else set_property files entry.name (text entry.content))
        entries

  unfoldable pub extract_files : List UnpackedAgentEntry → JsMap String String
  unfolding extract_loop
  extract_files entries = extract_loop [] entries

  module _ (separator : ℕ → Bool) (dir : FsPath) where
    abbrev pub file_path : UnpackedAgentEntry → FsPath
    file_path entry = walk dir (split separator (codes entry.name))

    -- `denied` is what the platform refuses besides: a full disk, a name that it does not take.
    module _ (denied : List (FsPath × Buffer) → FsPath → Buffer → Bool) where
      -- `mkdirSync` or `writeFileSync` throws: `join` keeps a separator at the end, which names a
      -- directory; so does a path above a written file; and a written file has nothing below it.
      unfoldable pub is_write_refused : List (FsPath × Buffer) → FsPath → UnpackedAgentEntry → Bool
      is_write_refused written at entry =
          ends_in separator (codes entry.name)
          || (any (in_the_way at) written || denied written at entry.content)

      unfoldable pub write_entry : Extracted → UnpackedAgentEntry → Extraction
      unfolding is_write_refused
      write_entry x entry =
          if is_skippable entry
          then extracted x
          else if not (is_below dir (file_path entry))
          then extracted x
          else if is_write_refused x.written (file_path entry) entry
          then failed x
          else extracted (record {
            written = x.written ++ (file_path entry, entry.content) ∷ [];
            files = set_property x.files entry.name (text entry.content);
          })

      unfoldable pub disk_loop : Extracted → List UnpackedAgentEntry → Extraction
      disk_loop x [] = extracted x
      disk_loop x (entry ∷ entries) = and_then (write_entry x entry) (λ y. disk_loop y entries)

      unfoldable pub extract_bundle_to_disk : List UnpackedAgentEntry → Extraction
      unfolding disk_loop
      extract_bundle_to_disk entries = disk_loop (record { written = []; files = [] }) entries
