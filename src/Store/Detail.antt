-- ===== src/Store/Detail.antt =====
-- Paged detail: the part of src/deepthought/store/filestore.py that maps a reference to a file
-- below `detail/`. A store directory holds no symbolic links here, so the second, physical guard
-- of `_detail_path` never refuses what the first one accepts.
pub mod Paths
pub mod Pages
use deep_thought.Prelude.{
  String, ◌&◌, Bool, true, false, not, ◌||◌, Option, none, some, List, [], ◌∷◌, ◌==◌, member,
  is_some, if◌then◌else◌,
}
use deep_thought.Prelude.Text.{after, join, path_parts, newlines}
use deep_thought.Prelude.Dirs.{lookup, write}
use deep_thought.Store.{Store}

-- `ref` without a prefix `state/`
relative : String → String
unfolding after
relative ref = elim (after "state/" ref) [ none ↦ ref | some rest ↦ rest ]

abbrev below_detail : List String → Bool
below_detail [] = false
below_detail (p ∷ ps) = p == "detail"

-- `_detail_path`, as the path from the store's root
unfoldable pub detail_path : String → Option String
unfolding relative path_parts join
detail_path ref =
    let parts = path_parts (relative ref) in
    if not (below_detail parts) || member ".." parts then none else some (join "/" parts)

-- `path.read_text`: the text of a file with plain line ends
plain : Option String → Option String
plain none = none
plain (some content) = some (newlines content)

-- the text of the file at a path, if there is one
read_path : Store → Option String → Option String
read_path s none = none
read_path s (some path) = plain (lookup path s.detail)

unfoldable pub read_detail : Store → String → Option String
unfolding read_path plain newlines
read_detail s ref = read_path s (detail_path ref)

-- `path is not None and path.is_file()`
unfoldable pub detail_exists : Store → String → Bool
unfolding read_detail
detail_exists s ref = is_some (read_detail s ref)

abbrev pub detail_ref : String → String → String
detail_ref session_id name = "detail/" & (session_id & ("/" & name))

-- the store after `write_detail`, which returns `detail_ref session_id name`
unfoldable pub write_detail : Store → String → String → String → Store
unfolding path_parts join
write_detail s session_id name content = record s {
  detail = write (join "/" (path_parts (detail_ref session_id name))) content s.detail;
}
