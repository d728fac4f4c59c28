-- ===== src/Bundle/Inside.antt =====
-- Nothing is taken out of a bundle to a place outside of its directory, and what is taken out.
use skrun.Base.{
  ℕ, ◌≡◌, refl, ap, sym, map, ◌∙◌, inl, inr, String, Bool, true, false, not, ◌&&◌, ◌⊎◌, subst,
  if◌then◌else◌, List, [], ◌∷◌, ◌++◌, string_eq, any, filter, arith, Bool-cases,
}
use mathlib.Core.List.{append-nil, append_assoc, map-append}
use skrun.JsMap.{JsMap}
use skrun.Storage.{Buffer}
use skrun.Network.Codes.{same, codes}
use skrun.Bundle.{
  is_separator, split, dot_dot, FsPath, is_below, UnpackedAgentEntry, is_skippable, is_unsafe_name,
  path_escapes, file_path, is_write_refused, in_the_way, ends_in, set_property, write_entry,
  Extracted, Extraction, extracted, failed, extract_loop, extract_files, disk_loop,
  extract_bundle_to_disk,
}
use skrun.Bundle.Paths.{added, walk-added, is_below-append, is_below_self, no_up}

taken_safe :
    (entry : UnpackedAgentEntry)
    → is_skippable entry ≡ false
    → any (same dot_dot) (split is_separator (codes entry.name)) ≡ false
unfolding is_skippable is_unsafe_name path_escapes
taken_safe entry h = ground (arith, h)

module _ (text : Buffer → String) (separator : ℕ → Bool)
    (narrower : (c : ℕ) → separator c ≡ true → is_separator c ≡ true) (dir : FsPath) where
  -- An entry that is not skipped lies in the directory: its path adds segments to the directory's,
  -- whether a backslash separates names on the platform or not, and the second guard drops it only if
  -- it adds none, so that its name is the directory itself.
  pub file_path-inside :
      (entry : UnpackedAgentEntry)
      → is_skippable entry ≡ false
      → (below : FsPath) × (file_path text separator dir entry ≡ below ++ dir)
        × (is_below dir (file_path text separator dir entry) ≡ false → below ≡ [])
  file_path-inside entry h =
      let ws = split separator (codes entry.name) in
      let path =
        walk-added ws dir (no_up separator narrower (codes entry.name) (taken_safe entry h)) in
      (added ws, path, λ out. no_segments (added ws) (rw path at out))
    where
      no_segments : (b : FsPath) → is_below dir (b ++ dir) ≡ false → b ≡ []
      no_segments [] out = refl
      no_segments (w ∷ b) out = cc (is_below-append w b dir)

  -- What an entry's name adds to the path of the directory.
  abbrev pub segments : UnpackedAgentEntry → FsPath
  segments entry = added (split separator (codes entry.name))

  abbrev is_some_path : FsPath → Bool
  is_some_path [] = false
  is_some_path (w ∷ p) = true

  -- Neither skipped nor a name of the directory itself.
  abbrev pub is_kept : UnpackedAgentEntry → Bool
  is_kept entry = not (is_skippable entry) && is_some_path (segments entry)

  is_below_iff : (b : FsPath) → is_below dir (b ++ dir) ≡ is_some_path b
  is_below_iff [] = is_below_self dir
  is_below_iff (w ∷ b) = is_below-append w b dir

  path_of_taken :
      (entry : UnpackedAgentEntry)
      → is_skippable entry ≡ false
      → file_path text separator dir entry ≡ segments entry ++ dir
  path_of_taken entry h =
      walk-added (split separator (codes entry.name)) dir
        (no_up separator narrower (codes entry.name) (taken_safe entry h))

  guard_lem :
      (entry : UnpackedAgentEntry)
      → is_skippable entry ≡ false
      → is_below dir (file_path text separator dir entry) ≡ is_some_path (segments entry)
  guard_lem entry h = ap (is_below dir) (path_of_taken entry h) ∙ is_below_iff (segments entry)

  abbrev pub file_of : UnpackedAgentEntry → FsPath × Buffer
  file_of entry = (segments entry ++ dir, entry.content)

  -- What there is after writing the entries.
  abbrev pub wrote : List UnpackedAgentEntry → Extracted
  wrote entries = record { written = map file_of entries; files = extract_files text entries }

  extract_loop-append :
      (files : JsMap String String) (xs ys : List UnpackedAgentEntry)
      → extract_loop text files (xs ++ ys) ≡ extract_loop text (extract_loop text files xs) ys
  unfolding extract_loop
  extract_loop-append files [] ys = refl
  extract_loop-append files (x ∷ xs) ys =
      extract_loop-append
        (if is_skippable x then files else set_property files x.name (text x.content)) xs ys

  wrote_snoc :
      (before : List UnpackedAgentEntry) (entry : UnpackedAgentEntry)
      → is_skippable entry ≡ false
      → wrote (before ++ entry ∷ []) ≡ record {
        written = map file_of before ++ file_of entry ∷ [];
        files = set_property (extract_files text before) entry.name (text entry.content);
      }
  unfolding extract_files extract_loop
  wrote_snoc before entry n =
      rw (map-append file_of before (entry ∷ []), extract_loop-append [] before (entry ∷ []), n)
        refl

  module _ (denied : List (FsPath × Buffer) → FsPath → Buffer → Bool) where
    -- The name ends like a directory's, a file written before lies in the way, or the platform refuses.
    abbrev pub IsRefused : List UnpackedAgentEntry → UnpackedAgentEntry → Type 0
    IsRefused before entry =
        (ends_in separator (codes entry.name) ≡ true)
        ⊎ (any (in_the_way (segments entry ++ dir)) (map file_of before) ≡ true)
        ⊎ (denied (map file_of before) (segments entry ++ dir) entry.content ≡ true)

    abbrev pub IsFree : List UnpackedAgentEntry → UnpackedAgentEntry → Type 0
    IsFree before entry =
        (ends_in separator (codes entry.name) ≡ false)
        × (any (in_the_way (segments entry ++ dir)) (map file_of before) ≡ false)
        × (denied (map file_of before) (segments entry ++ dir) entry.content ≡ false)

    -- Each of the entries is free after those before it.
    abbrev pub AllFree : List UnpackedAgentEntry → List UnpackedAgentEntry → Type 0
    AllFree before [] = Unit
    AllFree before (entry ∷ entries) = IsFree before entry × AllFree (before ++ entry ∷ []) entries

    -- The entries are all written, or those before the first that is refused.
    abbrev pub Ends : List UnpackedAgentEntry → List UnpackedAgentEntry → Extraction → Type 0
    Ends before kept end =
        ((end ≡ extracted (wrote (before ++ kept))) × AllFree before kept)
        ⊎ (first : List UnpackedAgentEntry) × (entry : UnpackedAgentEntry) × (after : List
            UnpackedAgentEntry)
          × (kept ≡ first ++ entry ∷ after)
          × (end ≡ failed (wrote (before ++ first)))
          × AllFree before first
          × IsRefused (before ++ first) entry

    refused_iff :
        (before : List UnpackedAgentEntry) (entry : UnpackedAgentEntry)
        → let refused =
            is_write_refused text separator dir denied
              (map file_of before)
              (segments entry ++ dir)
              entry in
          ((refused ≡ true) × IsRefused before entry) ⊎ ((refused ≡ false) × IsFree before entry)
    unfolding is_write_refused
    refused_iff before entry = elim (Bool-cases (ends_in separator (codes entry.name))) [
      | inl y ↦ inl (rw y refl, inl y)
      | inr n ↦ elim (Bool-cases (any (in_the_way (segments entry ++ dir)) (map file_of before))) [
        | inl y ↦ inl (rw (n, y) refl, inr (inl y))
        | inr m ↦
            elim (Bool-cases (denied (map file_of before) (segments entry ++ dir) entry.content)) [
              | inl y ↦ inl (rw (n, m, y) refl, inr (inr y))
              | inr k ↦ inr (rw (n, m, k) refl, (n, m, k))
            ]
      ]
    ]

    -- One entry: left out, refused, or written.
    write_kept :
        (before : List UnpackedAgentEntry) (entry : UnpackedAgentEntry)
        → is_kept entry ≡ true
        → let end = write_entry text separator dir denied (wrote before) entry in
          ((end ≡ failed (wrote before)) × IsRefused before entry)
          ⊎ ((end ≡ extracted (wrote (before ++ entry ∷ []))) × IsFree before entry)
    unfolding write_entry
    write_kept before entry kept =
        let n : is_skippable entry ≡ false = ground (arith, kept) in
        let y : is_some_path (segments entry) ≡ true = ground (arith, kept) in
        let guard = guard_lem entry n ∙ y in
        elim (refused_iff before entry) [
          | inl (r, why) ↦ inl (rw (write_entry, n, guard, path_of_taken entry n, r) refl, why)
          | inr (r, free) ↦ inr (
            rw (write_entry, n, guard, path_of_taken entry n, r, wrote_snoc before entry n) refl,
            free,
          )
        ]

    write_dropped :
        (x : Extracted) (entry : UnpackedAgentEntry)
        → is_kept entry ≡ false
        → write_entry text separator dir denied x entry ≡ extracted x
    unfolding write_entry
    write_dropped x entry dropped = elim (Bool-cases (is_skippable entry)) [
      | inl y ↦ rw (write_entry, y) refl
      | inr n ↦
          let m : is_some_path (segments entry) ≡ false = ground (arith, n, dropped) in
          let guard = guard_lem entry n ∙ m in rw (write_entry, n, guard) refl
    ]

    Ends-cons :
        (before kept : List UnpackedAgentEntry) (entry : UnpackedAgentEntry) (end : Extraction)
        → IsFree before entry
        → Ends (before ++ entry ∷ []) kept end
        → Ends before (entry ∷ kept) end
    Ends-cons before kept entry end free (inl (e, all)) =
        inl (e ∙ ap (λ l. extracted (wrote l)) (append_assoc before (entry ∷ []) kept), (free, all))
    Ends-cons before kept entry end free (inr (first, stop, after, cut, e, all, why)) =
        let longer = append_assoc before (entry ∷ []) first in
        inr (
          entry ∷ first,
          stop,
          after,
          ap (λ l. entry ∷ l) cut,
          e ∙ ap (λ l. failed (wrote l)) longer,
          (free, all),
          subst (λ l. IsRefused l stop) longer why,
        )

    disk_loop-Ends :
        (before entries : List UnpackedAgentEntry)
        → Ends before
            (filter is_kept entries)
            (disk_loop text separator dir denied (wrote before) entries)
    unfolding disk_loop
    disk_loop-Ends before [] = inl (ap (λ l. extracted (wrote l)) (sym (append-nil before)), tt)
    disk_loop-Ends before (entry ∷ entries) = elim (Bool-cases (is_kept entry)) [
      | inr n ↦
          rw (n, disk_loop, write_dropped (wrote before) entry n) (disk_loop-Ends before entries)
      | inl y ↦ elim (write_kept before entry y) [
        | inl (e, why) ↦
            rw (y, disk_loop, e)
              (inr (
                [],
                entry,
                filter is_kept entries,
                refl,
                ap (λ l. failed (wrote l)) (sym (append-nil before)),
                tt,
                subst (λ l. IsRefused l entry) (sym (append-nil before)) why,
              ))
        | inr (e, free) ↦
            rw (y, disk_loop, e)
              (Ends-cons before (filter is_kept entries) entry _ free
                (disk_loop-Ends (before ++ entry ∷ []) entries))
      ]
    ]

    -- The entries that matter are those that are neither skipped nor a name of the directory itself. The
    -- extraction succeeds exactly with all of them: each is written at its own segments below the directory
    -- and in their order, the texts are those that `extractFiles` reads from them, and none of their names
    -- ends in a separator, lies above or below the path of an earlier one, or is refused by the platform.
    -- Otherwise it throws at the first that does, and what it has written are the entries before that one.
    pub extract_lem :
        (entries : List UnpackedAgentEntry)
        → let end = extract_bundle_to_disk text separator dir denied entries in
          let kept = filter is_kept entries in
          ((end ≡ extracted (wrote kept)) × AllFree [] kept)
          ⊎ (first : List UnpackedAgentEntry) × (entry : UnpackedAgentEntry) × (after : List
              UnpackedAgentEntry)
            × (kept ≡ first ++ entry ∷ after)
            × (end ≡ failed (wrote first))
            × AllFree [] first
            × IsRefused first entry
    unfolding extract_bundle_to_disk extract_files extract_loop
    extract_lem entries = disk_loop-Ends [] entries
