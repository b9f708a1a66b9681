-- ===== src/Indexer/Source.antt =====
-- The rows that the post service writes (services/post/service/post.go), as the indexer reads them.
use social_ai_backend.Common.{ℕ, ◌≡◌, refl, Option, arith}
use social_ai_backend.Common.Int.{ℤ}
use social_ai_backend.Indexer.{PostRow}
use social_ai_backend.Indexer.Steps.{Changes}
use social_ai_backend.Post.Tables
use social_ai_backend.Post.Tables.{
  is_deleted, mark_deleted, CountColumn, like_column, share_column, add_to,
}

module _ {V : Type 0} where
  -- The columns that `load` selects, with the embedding, which the post service does not touch.
  unfoldable pub read_row : Option V → Tables.PostRow → PostRow V
  read_row embedding p = record {
    id = p.post_id;
    user_id = p.user_id;
    message = p.message;
    type = p.type;
    created_at = p.created_at;
    deleted = is_deleted p;
    embedding = embedding;
    version = p.version;
  }

  -- A deletion is a change that the version counts.
  pub mark_deleted-Changes :
      (embedding : Option V) (now : ℕ) (p : Tables.PostRow)
      → Changes (read_row embedding p) (read_row embedding (mark_deleted now p))
  unfolding read_row
  mark_deleted-Changes embedding now p = record {
    same_id = refl;
    same_author = refl;
    same_message = refl;
    same_type = refl;
    same_time = refl;
    newer = omega arith;
  }

  -- A count is no part of what the indexer reads.
  pub add_to-read_row :
      (embedding : Option V) (col : CountColumn) (n : ℤ) (p : Tables.PostRow)
      → read_row embedding (add_to col n p) ≡ read_row embedding p
  unfolding read_row
  add_to-read_row embedding like_column n p = refl
  add_to-read_row embedding share_column n p = refl
