-- ===== src/Store/Areas/Upgrade.antt =====
-- Saving coverage, under the new name and over the older one.
use deep_thought.Prelude.{
  String, ◌≡◌, ◌≢◌, refl, true, false, some, none, [], ◌∷◌, eq_iff, eq_refl, arith,
}
use deep_thought.Prelude.Dirs.{Dir, lookup, write, unlink, lookup-write}
use deep_thought.Ids.{is_record_id}
use deep_thought.Schema.Coverage.{Coverage}
use deep_thought.Store.{Store}
use deep_thought.Store.Areas.{
  area_file, legacy_file, directory, or_new, covers, written, upgraded, save_coverage, get_coverage,
}

lookup-unlink_ne :
    {V : Type 0} (k j : String) (d : Dir V) → k ≢ j → lookup j (unlink k d) ≡ lookup j d
unfolding lookup unlink
lookup-unlink_ne k j [] n = refl
lookup-unlink_ne k j ((i, v) ∷ d) n =
    ground (arith, lookup-unlink_ne k j d n, eq_iff i k, eq_iff i j)

lookup-unlink_eq : {V : Type 0} (k : String) (d : Dir V) → lookup k (unlink k d) ≡ none
unfolding lookup unlink
lookup-unlink_eq k [] = refl
lookup-unlink_eq k ((i, v) ∷ d) = ground (arith, lookup-unlink_eq k d)

covers-upgraded :
    (path legacy : String) (c : Coverage) (d : Dir Coverage)
    → legacy ≢ path
    → covers c.area (lookup legacy (upgraded path legacy c d)) ≡ false
unfolding upgraded
covers-upgraded path legacy c d n =
    let d' = write path (written c) d in
    ground (arith, eq_iff legacy path, lookup-unlink_eq legacy d')

-- Whatever is removed, the record that was written stays.
lookup-upgraded :
    (path legacy : String) (c : Coverage) (d : Dir Coverage)
    → lookup path (upgraded path legacy c d) ≡ some (written c)
unfolding upgraded
lookup-upgraded path legacy c d =
    let d' = write path (written c) d in
    ground (
      arith,
      lookup-write path path (written c) d,
      eq_refl path,
      eq_iff legacy path,
      lookup-unlink_ne legacy path d',
    )

or_new-write :
    (k : String) (d : Dir Coverage) (e : Dir (Dir Coverage)) → or_new (lookup k (write k d e)) ≡ d
or_new-write k d e = rw (lookup-write k k d e, eq_refl k) refl

directory-save_coverage :
    (sha1 : String → String) (s : Store) (c : Coverage)
    → directory (save_coverage sha1 s c) c.project
      ≡ upgraded (area_file sha1 c.area) (legacy_file c.area) c (directory s c.project)
unfolding save_coverage
directory-save_coverage sha1 s c = or_new-write c.project _ s.coverage

-- Coverage that is saved is found again under its project and its area, with the body as the file
-- gives it back, whether or not a record under the older name was there.
pub get_coverage-save_coverage :
    (sha1 : String → String) (s : Store) (c : Coverage)
    → is_record_id c.project ≡ true
    → get_coverage sha1 (save_coverage sha1 s c) c.project c.area ≡ some (written c)
unfolding get_coverage
get_coverage-save_coverage sha1 s c h =
    rw (h, directory-save_coverage sha1 s c, lookup-upgraded) refl

-- An upgrade leaves no second record of an area: after a save, the file of the older name, where
-- that is another file, holds no record of the area that was saved.
pub save_coverage_upgrades :
    (sha1 : String → String) (s : Store) (c : Coverage)
    → legacy_file c.area ≢ area_file sha1 c.area
    → covers c.area (lookup (legacy_file c.area) (directory (save_coverage sha1 s c) c.project))
      ≡ false
save_coverage_upgrades sha1 s c n =
    rw (directory-save_coverage sha1 s c)
      (covers-upgraded (area_file sha1 c.area) (legacy_file c.area) c (directory s c.project) n)
