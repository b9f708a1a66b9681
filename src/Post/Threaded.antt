-- ===== src/Post/Threaded.antt =====
-- The threads of comments under `AddComment` (services/post/service/comments.go).
use social_ai_backend.Common.{
  ℕ, ◌+◌, ◌≡◌, refl, sym, subst, inl, inr, Bool, true, not, ◌&&◌, ◌||◌, Option, none, some, List,
  [], ◌∷◌, ◌++◌, arith, ltb, if_both, Bool-cases, any, find_first, length, All, All-append,
  All-weaken, In, here, there, In-append_left, Text, text_eq, text_eq→eq, is_empty, ok, err,
  Ensures, Ensures->>=, after, refuse, found_or, found_or_self, Ensures-nothing, ◌>>◌,
}
use social_ai_backend.Transaction.{Weather, db_call}
use social_ai_backend.Post.Tables.{is_live}
use social_ai_backend.Post.Counts.{post_not_found, comment_not_found, invalid_comment, db_error}
use social_ai_backend.Post.Create.{Result}
use social_ai_backend.Post.Comments.{
  CommentRow, Threads, Place, place, prepare, insert_comment, answered_insert, prepared,
  add_comment, is_comment, is_visible, keys_hold, max_comment_len,
}

-- A comment starts a thread, or replies to a comment of the list.
abbrev pub Anchored : List CommentRow → Text → Text → Option Text → Text → ℕ → Type 0
Anchored cs id post none root depth = (root ≡ id) × (depth ≡ 0)
Anchored cs id post (some parent) root depth =
    (q : CommentRow) × In q cs
    × (q.comment_id ≡ parent)
    × (q.post_id ≡ post)
    × (depth ≡ q.depth + 1)
    × (root ≡ q.root_comment_id)

abbrev pub IsAnchored : List CommentRow → CommentRow → Type 0
IsAnchored cs c = Anchored cs c.comment_id c.post_id c.parent_comment_id c.root_comment_id c.depth

pub record IsThreaded (th : Threads) : Type 0 where
  pub anchored : All (IsAnchored th.comments) th.comments

Anchored-more :
    (cs ds : List CommentRow) (id post : Text) (parent : Option Text) (root : Text) (depth : ℕ)
    → Anchored cs id post parent root depth
    → Anchored (cs ++ ds) id post parent root depth
Anchored-more cs ds id post none root depth h = h
Anchored-more cs ds id post (some p) root depth (q, m, a, b, c, d) =
    (q, In-append_left ds m, a, b, c, d)

find_first-In :
    (test : CommentRow → Bool) (cs : List CommentRow) (row : CommentRow)
    → find_first test cs ≡ some row
    → In row cs × (test row ≡ true)
find_first-In test [] row e = absurd (none_ne e)
  where
    none_ne : ¬ ◌≡◌ {A = Option CommentRow} none (some row)
    none_ne h = absurd (cc)
find_first-In test (c ∷ cs) row e = elim (Bool-cases (test c)) [
  | inl h ↦
      let same : c ≡ row = some_inj (rw h at e) in
      (subst (λ x. In x (c ∷ cs)) same here, subst (λ x. test x ≡ true) same h)
  | inr h ↦ let r = find_first-In test cs row (rw h at e) in (there r.0, r.1)
]
  where
    some_inj : {a b : CommentRow} → some a ≡ some b → a ≡ b
    some_inj q = cc

abbrev Placed : Threads → Text → Text → Place → Type 0
Placed th id post at = Anchored th.comments id post at.parent at.root at.depth

-- A reply to a comment that was found.
reply-Placed :
    (id post p : Text) (th : Threads) (row : CommentRow)
    → find_first (λ x. is_comment p x && is_visible x) th.comments ≡ some row
    → Ensures (Placed th id post) (
        refuse (not (text_eq row.post_id post)) comment_not_found
        >> ok (record { root = row.root_comment_id; depth = row.depth + 1; parent = some p }))
reply-Placed id post p th row found = elim (Bool-cases (text_eq row.post_id post)) [
  | inl e ↦
      let r = find_first-In (λ x. is_comment p x && is_visible x) th.comments row found in
      rw e (
        row,
        r.0,
        sym (text_eq→eq p row.comment_id (ground (arith, r.1))),
        text_eq→eq row.post_id post e,
        refl,
        refl,
      )
  | inr e ↦ rw e tt
]

place-Placed :
    (w : Weather) (id post parent : Text) (th : Threads)
    → Ensures (Placed th id post) (place w id post parent th)
unfolding place
place-Placed w id post [] th = (refl, refl)
place-Placed w id post (c ∷ parent) th = after (Placed th id post) (db_call db_error w 1) _ (
    Ensures->>=
      (λ row. find_first (λ x. is_comment (c ∷ parent) x && is_visible x) th.comments ≡ some row)
      (Placed th id post) _ _ (found_or_self comment_not_found _)
      (λ row found. reply-Placed id post (c ∷ parent) th row found))

prepare-IsAnchored :
    (w : Weather) (now : ℕ) (id post parent user content : Text) (th : Threads)
    → Ensures (IsAnchored th.comments) (prepare w now id post parent user content th)
unfolding prepare
prepare-IsAnchored w now id post parent user content th =
    after (IsAnchored th.comments)
      (refuse
        (is_empty post || is_empty user || is_empty content || ltb max_comment_len (length content))
        invalid_comment)
      _
      (after (IsAnchored th.comments) (db_call db_error w 0) _ (
        Ensures->>= (λ _. Unit {0}) (IsAnchored th.comments)
          (found_or post_not_found (find_first (is_live post) th.posts)) _
          (Ensures-nothing (found_or post_not_found (find_first (is_live post) th.posts)))
          (λ owner _.
            Ensures->>= (Placed th id post) (IsAnchored th.comments) (place w id post parent th) _
              (place-Placed w id post parent th) (λ at h. h))))

insert_comment-IsThreaded :
    (row : CommentRow) (th : Threads)
    → IsThreaded th
    → IsAnchored th.comments row
    → Ensures IsThreaded (insert_comment row th)
unfolding insert_comment
insert_comment-IsThreaded row th v a =
    after IsThreaded (refuse (any (is_comment row.comment_id) th.comments) db_error) _ (
      after IsThreaded (refuse (not (keys_hold row th)) comment_not_found) _ (record {
        anchored =
            All-append _ th.comments (row ∷ [])
              (All-weaken _ _
                (λ c h.
                  Anchored-more th.comments (row ∷ []) c.comment_id c.post_id c.parent_comment_id
                    c.root_comment_id c.depth h)
                th.comments v.anchored)
              (
                Anchored-more th.comments (row ∷ []) row.comment_id row.post_id
                    row.parent_comment_id row.root_comment_id row.depth a,
                tt,
              );
      }))

answered_insert-IsThreaded :
    (w : Weather) (id : Text) (th : Threads) (m : Result Threads)
    → IsThreaded th
    → Ensures IsThreaded m
    → IsThreaded (answered_insert w id th m).0
unfolding answered_insert
answered_insert-IsThreaded w id th (err e) v h = v
answered_insert-IsThreaded w id th (ok th') v h =
    if_both (λ (r : Threads × Result Text). IsThreaded r.0) (w.fails 2) _ _
      (if_both IsThreaded w.commit_lost th' th h v) h

prepared-IsThreaded :
    (w : Weather) (th : Threads) (m : Result CommentRow)
    → IsThreaded th
    → Ensures (IsAnchored th.comments) m
    → IsThreaded (prepared w th m).0
unfolding prepared
prepared-IsThreaded w th (err e) v h = v
prepared-IsThreaded w th (ok row) v h =
    answered_insert-IsThreaded w row.comment_id th (insert_comment row th) v
      (insert_comment-IsThreaded row th v h)

-- In any weather, `AddComment` keeps the threads well formed: every comment either starts a thread, with
-- its own id as the root and depth 0, or replies to a stored comment of the same post, with this
-- comment's root and one more than its depth.
pub add_comment-IsThreaded :
    (w : Weather) (now : ℕ) (id post parent user content : Text) (th : Threads)
    → IsThreaded th
    → IsThreaded (add_comment w now id post parent user content th).0
unfolding add_comment
add_comment-IsThreaded w now id post parent user content th v =
    prepared-IsThreaded w th (prepare w now id post parent user content th) v
      (prepare-IsAnchored w now id post parent user content th)
