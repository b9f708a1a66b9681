-- ===== src/Post/Counting.antt =====
-- `bumpCounter` of services/post/service/post.go: a count is what the row holds and what waits in Redis.
use social_ai_backend.Common.{
  ◌≡◌, refl, sym, ap, subst, ◌∙◌, ◌⊎◌, inl, inr, false, Option, none, some, List, [], ◌∷◌,
  Bool-cases, find_first, Text, ok, err,
}
use social_ai_backend.Common.Int.{ℤ, pos, ◌+ℤ◌, +ℤ_assoc, int_laws}
use social_ai_backend.Transaction.{Weather, exec}
use social_ai_backend.Counter.{Store, IncrError, not_recorded, delta_key, incr}
use social_ai_backend.Counter.Contract.{StoreLaws}
use social_ai_backend.Counter.Conserve.{
  IncrOutcome, recorded, undone, unanswered, unsettled, recording, undoing, incr_outcome,
}
use social_ai_backend.Post.Tables.{
  Db, PostRow, CountColumn, like_column, share_column, has_post_id, column_of, add_to, update_post,
}
use social_ai_backend.Post.Counts.{db_error, add_count, sink_add, bumped, bump_counter}
use social_ai_backend.Post.Create.{Result}

abbrev pub count_in : CountColumn → PostRow → ℤ
count_in like_column p = p.like_count
count_in share_column p = p.share_count

-- The count that a post's row holds.
abbrev pub stored : Text → CountColumn → Db → ℤ
stored id col db = elim (find_first (has_post_id id) db.posts) [
  | none ↦ pos 0
  | some p ↦ count_in col p
]

count_in-add_to :
    (col : CountColumn) (n : ℤ) (p : PostRow) → count_in col (add_to col n p) ≡ count_in col p +ℤ n
count_in-add_to like_column n p = refl
count_in-add_to share_column n p = refl

has-add_to :
    (id : Text) (col : CountColumn) (n : ℤ) (p : PostRow)
    → has_post_id id (add_to col n p) ≡ has_post_id id p
has-add_to id like_column n p = refl
has-add_to id share_column n p = refl

find_first-update :
    (id : Text) (col : CountColumn) (n : ℤ) (posts : List PostRow) (row : PostRow)
    → find_first (has_post_id id) posts ≡ some row
    → find_first (has_post_id id) (update_post id (add_to col n) posts) ≡ some (add_to col n row)
find_first-update id col n [] row e = cc
find_first-update id col n (p ∷ posts) row e = elim (Bool-cases (has_post_id id p)) [
  | inl h ↦ rw (h, has-add_to id col n p ∙ h) (ap some (ap (add_to col n) (some_inj (rw h at e))))
  | inr h ↦ rw (h, h) (find_first-update id col n posts row (rw h at e))
]
  where
    some_inj : {a b : PostRow} → some a ≡ some b → a ≡ b
    some_inj q = cc

stored-add_count :
    (id : Text) (col : CountColumn) (n : ℤ) (db : Db) (row : PostRow)
    → find_first (has_post_id id) db.posts ≡ some row
    → stored id col (add_count id col n db).0 ≡ stored id col db +ℤ n
stored-add_count id col n db row e =
    rw (stored, find_first-update id col n db.posts row e, stored, e) (count_in-add_to col n row)

-- A call that stores a number, and its answer: it was stored, or there is an error and it was stored
-- or not.
abbrev pub Counted : ℤ → ℤ → ℤ → Result (Unit {0}) → Type 0
Counted n old new r =
    ((r ≡ ok tt) × (new ≡ old +ℤ n)) ⊎ ((r ≡ err db_error) × ((new ≡ old) ⊎ (new ≡ old +ℤ n)))

sink_add-Counted :
    (w : Weather) (id : Text) (col : CountColumn) (n : ℤ) (db : Db) (row : PostRow)
    → find_first (has_post_id id) db.posts ≡ some row
    → Counted n
        (stored id col db)
        (stored id col (sink_add w id (some col) n db).0)
        (sink_add w id (some col) n db).1
unfolding sink_add exec
sink_add-Counted w id col n db row e = elim (Bool-cases (w.fails 10)) [
  | inr f ↦ rw (exec, f) (inl (refl, stored-add_count id col n db row e))
  | inl f ↦ elim (Bool-cases w.commit_lost) [
    | inl l ↦ rw (exec, f, l) (inr (refl, inr (stored-add_count id col n db row e)))
    | inr l ↦ rw (exec, f, l) (inr (refl, inl refl))
  ]
]

module _ {S : Type 0} {store : Store S} (laws : StoreLaws store) (prefix : Text) where
  -- The row's count with what waits in Redis.
  abbrev pub total : Text → Text → CountColumn → S × Db → ℤ
  total id field col (s, db) = laws.value s (delta_key prefix id field) +ℤ stored id col db

  shifted : (a b n : ℤ) → a +ℤ n +ℤ b ≡ a +ℤ b +ℤ n
  shifted a b n = grind int_laws

  Counted-plus :
      (a n old new : ℤ) (r : Result (Unit {0}))
      → Counted n old new r
      → Counted n (a +ℤ old) (a +ℤ new) r
  Counted-plus a n old new r (inl (e, f)) = inl (e, ap (◌+ℤ◌ a) f ∙ sym (+ℤ_assoc a old n))
  Counted-plus a n old new r (inr (e, inl f)) = inr (e, inl (ap (◌+ℤ◌ a) f))
  Counted-plus a n old new r (inr (e, inr f)) =
      inr (e, inr (ap (◌+ℤ◌ a) f ∙ sym (+ℤ_assoc a old n)))

  module _ (w : Weather) (id field : Text) (col : CountColumn) (n : ℤ) (db : Db) (row : PostRow)
      (known : column_of field ≡ some col)
      (there_is : find_first (has_post_id id) db.posts ≡ some row) where
    fallback-Counted :
        (old : ℤ) (s : S)
        → laws.value s (delta_key prefix id field) ≡ old
        → Counted n
            (old +ℤ stored id col db)
            (total id field col (bumped store prefix w id field n s db (some not_recorded)).0)
            (bumped store prefix w id field n s db (some not_recorded)).1
    unfolding bumped
    fallback-Counted old s e =
        rw (known, e)
          (Counted-plus old n (stored id col db) (stored id col (sink_add w id (some col) n db).0)
            (sink_add w id (some col) n db).1 (sink_add-Counted w id col n db row there_is))

    -- The change is counted once; or INCRBY returned an error and took effect, and what follows counts
    -- once more; or the undo of `Incr` returned an error and took effect, and the change is not counted.
    abbrev pub BumpOutcome : S → (S × Db) × Result (Unit {0}) → Type 0
    BumpOutcome s r =
        Counted n (total id field col (s, db)) (total id field col r.0) r.1
        ⊎ ((((recording laws prefix id field n s).1 ≡ false)
              × (laws.value (recording laws prefix id field n s).0 (delta_key prefix id field)
                  ≡ laws.value s (delta_key prefix id field) +ℤ n)
              × Counted n (total id field col (s, db) +ℤ n) (total id field col r.0) r.1)
            ⊎ (((undoing laws prefix id field n s).1 ≡ false)
                × (laws.value (undoing laws prefix id field n s).0 (delta_key prefix id field)
                    ≡ laws.value s (delta_key prefix id field))
                × (r.1 ≡ ok tt)
                × (total id field col r.0 ≡ total id field col (s, db))))

    bumped-BumpOutcome :
        (s : S) (r : S × Option IncrError)
        → IncrOutcome laws prefix id field n s r
        → BumpOutcome s (bumped store prefix w id field n r.0 db r.1)
    unfolding bumped
    bumped-BumpOutcome s _ (recorded v m) = inl (inl (refl, rw v (shifted _ (stored id col db) n)))
    bumped-BumpOutcome s _ (undone f g v) = inl (fallback-Counted _ _ v)
    bumped-BumpOutcome s _ (unanswered f (inl v)) = inl (fallback-Counted _ _ v)
    bumped-BumpOutcome s _ (unanswered f (inr v)) =
        let old = laws.value s (delta_key prefix id field) in
        let s' : S = (recording laws prefix id field n s).0 in
        inr (
          inl (
            f,
            v,
            subst
                (λ (z : ℤ).
                  Counted n z
                    (total id field col
                      (bumped store prefix w id field n s' db (some not_recorded)).0)
                    (bumped store prefix w id field n s' db (some not_recorded)).1)
                (shifted old (stored id col db) n) (fallback-Counted (old +ℤ n) s' v),
          ))
    bumped-BumpOutcome s _ (unsettled f g (inl v)) =
        inl (inl (refl, rw v (shifted _ (stored id col db) n)))
    bumped-BumpOutcome s _ (unsettled f g (inr v)) = inr (inr (g, v, refl, rw v refl))

  -- Over a Redis whose commands have the documented effects and in which a call that returns an error had
  -- its effect or none, and for a post that exists and one of the two counts, `bumpCounter` changes the
  -- count, the row's with what waits in Redis, by n exactly once; or it returns an error of the database,
  -- and the count changed by n or not at all. There are two exceptions:
  -- an INCRBY that returned an error although it took effect counts once more than that; and after an undo
  -- that returned an error although it took effect the count is what it was, and `bumpCounter` returns nil.
  pub bump_counter_lem :
      (w : Weather) (id field : Text) (col : CountColumn) (n : ℤ) (s : S) (db : Db) (row : PostRow)
      → (known : column_of field ≡ some col)
      → (there_is : find_first (has_post_id id) db.posts ≡ some row)
      → BumpOutcome w id field col n db row known there_is s
          (bump_counter store prefix w id field n s db)
  unfolding bump_counter
  bump_counter_lem w id field col n s db row known there_is =
      bumped-BumpOutcome w id field col n db row known there_is s (incr store prefix id field n s)
        (incr_outcome laws prefix id field n s)
