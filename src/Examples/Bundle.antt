-- ===== src/Examples/Bundle.antt =====
-- The theorems on bundles at an archive with an escaping name.
use skrun.Base.{
  ℕ, ◌≡◌, refl, String, Bool, List, ◌⊎◌, string_eq, true, false, none, [], ◌∷◌, ◌==◌, nat_eq,
  string_discrete, ℕ_discrete, arith, ◌++◌,
}
use skrun.Storage.{Buffer}
use skrun.Network.Codes.{codes, same, strip}
use skrun.Bundle.{
  UnpackedAgentEntry, FsPath, is_separator, is_skippable, is_unsafe_name, path_escapes, is_drive,
  split, extract_bundle_to_disk, file_path, is_below, disk_loop, write_entry, is_write_refused,
  ends_in, set_property, same_path, walk, extracted, failed,
}
use skrun.Bundle.Paths.{added}
use skrun.Bundle.Inside.{file_path-inside, extract_lem, wrote, AllFree, IsRefused}
use skrun.JsMap

abbrev slash : ℕ → Bool
slash c = c == b'/'

slash-narrower : (c : ℕ) → slash c ≡ true → is_separator c ≡ true
slash-narrower c h = ground (arith, h)

abbrev dir : FsPath
dir = codes "agent" ∷ codes "tmp" ∷ []

abbrev text : Buffer → String
text b = "text"

abbrev permitted : List (FsPath × Buffer) → FsPath → Buffer → Bool
permitted written at content = false

abbrev script : UnpackedAgentEntry
script = record { name = "scripts/run.py"; type = "file"; linkname = none; content = 1 ∷ [] }

abbrev escaping : UnpackedAgentEntry
escaping = record { name = "../run.py"; type = "file"; linkname = none; content = 2 ∷ [] }

file_path-inside_example :
    (below : FsPath) × (file_path text slash dir script ≡ below ++ dir)
    × (is_below dir (file_path text slash dir script) ≡ false → below ≡ [])
unfolding is_skippable is_unsafe_name path_escapes is_drive split same strip string_discrete
    ℕ_discrete
file_path-inside_example = file_path-inside text slash slash-narrower dir script refl

abbrev folder : UnpackedAgentEntry
folder = record { name = "scripts/"; type = "directory"; linkname = none; content = [] }

abbrev readme : UnpackedAgentEntry
readme = record { name = "README.md"; type = "file"; linkname = none; content = 3 ∷ [] }

extract_lem_example :
    let end = extract_bundle_to_disk text slash dir permitted (escaping ∷ readme ∷ script ∷ []) in
    let kept = readme ∷ script ∷ [] in
    ((end ≡ extracted (wrote text slash slash-narrower dir kept))
      × AllFree text slash slash-narrower dir permitted [] kept)
    ⊎ (first : List UnpackedAgentEntry) × (entry : UnpackedAgentEntry) × (after : List
        UnpackedAgentEntry)
      × (kept ≡ first ++ entry ∷ after)
      × (end ≡ failed (wrote text slash slash-narrower dir first))
      × AllFree text slash slash-narrower dir permitted [] first
      × IsRefused text slash slash-narrower dir permitted first entry
unfolding is_skippable is_unsafe_name path_escapes is_drive split same strip string_discrete
    ℕ_discrete added
extract_lem_example =
    extract_lem text slash slash-narrower dir permitted (escaping ∷ readme ∷ script ∷ [])

-- Two files are written, and the escaping name is left out.
two_files :
    extract_bundle_to_disk text slash dir permitted (escaping ∷ readme ∷ script ∷ [])
    ≡ extracted (record {
      written =
          (codes "README.md" ∷ dir, 3 ∷ []) ∷ (codes "run.py" ∷ codes "scripts" ∷ dir, 1 ∷ []) ∷ [];
      files = ("README.md", "text") ∷ ("scripts/run.py", "text") ∷ [];
    })
unfolding extract_bundle_to_disk disk_loop write_entry is_write_refused ends_in set_property
    is_below same_path walk JsMap.set is_skippable is_unsafe_name path_escapes is_drive split same
    strip string_discrete ℕ_discrete
two_files = refl

-- An entry for a directory ends the extraction, and what stands after it is not written.
folder_fails :
    extract_bundle_to_disk text slash dir permitted (readme ∷ folder ∷ script ∷ [])
    ≡ failed (record {
      written = (codes "README.md" ∷ dir, 3 ∷ []) ∷ [];
      files = ("README.md", "text") ∷ [];
    })
unfolding extract_bundle_to_disk disk_loop write_entry is_write_refused ends_in set_property
    is_below same_path walk JsMap.set is_skippable is_unsafe_name path_escapes is_drive split same
    strip string_discrete ℕ_discrete
folder_fails = refl
