-- ===== src/Core/Collection/Commits.antt =====
-- The marks of commits, crates/core/src/collection.rs.
use lumen.Base.{◌≡◌, some, ok}
use lumen.Core.Json.{JsonApi}
use lumen.Core.Tantivy.{TantivyApi, LogMark}
use lumen.Core.Collection.{commit, committed_mark}

module _ {json : JsonApi} (tantivy : TantivyApi json) where
  open tantivy use {Index}

  committed_payload :
      (mark : LogMark) (j : Index)
      → tantivy.payload j ≡ some (tantivy.mark_to_string mark)
      → committed_mark tantivy j ≡ ok (some mark)
  unfolding committed_mark
  committed_payload mark j p = rw (p, committed_mark) (rw (tantivy.mark_round_trip mark))

  -- The committed mark after a commit is the mark of the commit.
  pub committed_mark-commit :
      (mark : LogMark) (i j : Index)
      → commit tantivy mark i ≡ (ok tt, j)
      → committed_mark tantivy j ≡ ok (some mark)
  unfolding commit
  committed_mark-commit mark i j e = committed_payload mark j (tantivy.payload_commit _ i j e)

  pub same_mark :
      (i j : Index)
      → tantivy.payload j ≡ tantivy.payload i
      → committed_mark tantivy j ≡ committed_mark tantivy i
  unfolding committed_mark
  same_mark i j e = rw (e, committed_mark)
