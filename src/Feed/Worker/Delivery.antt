-- ===== src/Feed/Worker/Delivery.antt =====
-- What a handled event (services/feed/worker/feed_worker.go) means for the followers of the author.
use social_ai_backend.Common.{
  ℕ, ◌+◌, ◌≤◌, ◌≡◌, refl, sym, subst, ◌⊎◌, inl, inr, false, Option, none, some, List, [], ◌∷◌,
  arith, ltb, ◌==◌, ==_iff, Bool-cases, length, take, take_all, length-take, All, All-In, All-of_In,
  In, here, In-map, Text, is_empty, Attempt, ok,
}
use social_ai_backend.Common.Sort.{sort, In-sort, length-sort}
use social_ai_backend.Feed.Plan.{Policy, with_defaults, with_defaults_positive, decide}
use social_ai_backend.Feed.Merge.{Item}
use social_ai_backend.Feed.FanOut.{Run, launch, Reach, IsFinished, result, fan_out_lem}
use social_ai_backend.Feed.FanOut.Ending.{Ends, run-Ends}
use social_ai_backend.Social.Graph.{Entry, followers_of, newest, follower_count_up_to}
use social_ai_backend.Social.Follow.{Db}
use social_ai_backend.Social.Valid.{IsValid}
use social_ai_backend.Social.Paging.{all_followers_lem}
use social_ai_backend.Post.Tables.{PostCreatedEvent}
use social_ai_backend.Feed.Worker.{
  Error, not_pushed, World, Delivered, entry_for, mark_celebrity, failed_with, pushed, serve,
  handle_post_created,
}

-- The follower sees the post: it is in the follower's feed, or the author's posts are pulled.
abbrev pub Sees : Text → Delivered → Entry → Type 0
Sees author d e = In author d.celebrities ⊎ In e.id d.pushed_to

-- What a handling that ends does: it reports success only if every follower sees the post.
abbrev pub Serves : Text → List Entry → Option (Delivered × Attempt Error (Unit {0})) → Type 0
Serves author entries out =
    (d : Delivered) × (r : Attempt Error (Unit {0})) × (out ≡ some (d, r))
    × (r ≡ ok tt → All (Sees author d) entries)

module _ (p : Policy) (fan_out : List Text → Item → Run Error)
    (runs : (followers : List Text) (it : Item)
      → Reach (with_defaults p).parallelism (launch p followers) (fan_out followers it)
        × IsFinished (fan_out followers it))
    (w : World) (event : PostCreatedEvent) (db : Db) (celebs : List Text) where
  abbrev entries : List Entry
  entries = followers_of event.user_id db.follows

  abbrev threshold : ℕ
  threshold = (with_defaults p).celebrity_threshold

  mark_celebrity-Serves :
      Serves event.user_id entries (some (mark_celebrity w event.user_id celebs))
  unfolding mark_celebrity
  mark_celebrity-Serves = elim (Bool-cases w.s_add_fails) [
    | inl e ↦ (_, _, refl, λ ok_is. absurd (ground (arith, rw (mark_celebrity, e) at ok_is)))
    | inr e ↦ (_, _, refl, λ _. All-of_In _ entries (λ x m. inl (rw (mark_celebrity, e) here)))
  ]

  ok_of : (o : Option Error) → failed_with o ≡ ok tt → o ≡ none
  ok_of none h = refl
  ok_of (some e) h = cc

  -- Every follower was read, so every feed was written.
  pushed-Serves :
      (read : List Text)
      → ((e : Entry) → In e entries → In e.id read)
      → Serves event.user_id entries (some (pushed fan_out w event celebs (ok read)))
  pushed-Serves read all = (
    _,
    _,
    refl,
    λ ok_is.
        let run = fan_out read (entry_for w event) in
        let (reached, done) = runs read (entry_for w event) in
        let (written, _) =
          (fan_out_lem p read not_pushed reached).1 done (ok_of (result not_pushed run) ok_is) in
        All-of_In _ entries (λ e m. inr (All-In (λ f. In f run.written) read written (all e m))),
  )

  few_followers : length (take (threshold + 1) entries) ≤ threshold → length entries ≤ threshold
  few_followers h = omega (arith, length-take (threshold + 1) entries)

  serve-Serves :
      ((n : ℕ) → w.listing.fails n ≡ false)
      → IsValid db
      → All (λ (e : Entry). is_empty e.id ≡ false) entries
      → Serves event.user_id entries
          (serve p fan_out w event db.follows celebs (length (take (threshold + 1) entries)))
  unfolding serve decide
  serve-Serves calm v named = elim (Bool-cases (length (take (threshold + 1) entries) == 0)) [
    | inl e ↦
        rw (serve, e)
          (
            _,
            _,
            refl,
            λ _.
                nobody entries
                  (omega (arith, length-take (threshold + 1) entries, (==_iff _ 0).0 e)) _,
          )
    | inr e ↦ elim (Bool-cases (ltb threshold (length (take (threshold + 1) entries)))) [
      | inl f ↦ rw (serve, e, decide, f) mark_celebrity-Serves
      | inr f ↦
          let few : length entries ≤ threshold = few_followers (ground (arith, f)) in
          rw
            (
              serve,
              e,
              decide,
              f,
              all_followers_lem w.listing event.user_id threshold db calm v named,
            )
            (pushed-Serves _ (λ x m.
              In-map (λ (y : Entry). y.id) (take threshold (sort newest entries))
                (subst (In x)
                  (sym (
                    take_all threshold (sort newest entries)
                      (omega (arith, few, length-sort newest entries))))
                  (In-sort newest entries m))))
    ]
  ]
    where
      nobody : (es : List Entry) → length es ≤ 0 → (d : Delivered) → All (Sees event.user_id d) es
      nobody [] h d = tt
      nobody (e ∷ es) h d = absurd (omega arith)

-- When the queries of the follows table are answered, the table is valid and no follower has an empty id:
-- a fan-out that the handler of a `post.created` event starts can be finished by its own steps from
-- wherever it has come to, and each of them but a cancellation leaves less to do, so that it ends; the
-- handler then returns, and if it reports no error, then it has delivered the post, however the goroutines
-- were scheduled and whatever failed in them: every follower of the author has it in its feed, or the
-- author is in the set of those whose posts are pulled.
pub handle_delivers :
    (p : Policy) (fan_out : List Text → Item → Run Error) (w : World) (event : PostCreatedEvent)
    (db : Db) (celebs : List Text)
    → ((followers : List Text) (it : Item)
        → Reach (with_defaults p).parallelism (launch p followers) (fan_out followers it)
          × IsFinished (fan_out followers it))
    → w.counting.fails 0 ≡ false
    → ((n : ℕ) → w.listing.fails n ≡ false)
    → IsValid db
    → All (λ (e : Entry). is_empty e.id ≡ false) (followers_of event.user_id db.follows)
    → ((followers : List Text) (run : Run Error)
        → Reach (with_defaults p).parallelism (launch p followers) run
        → Ends (with_defaults p).parallelism run)
      × ((d : Delivered) × (r : Attempt Error (Unit {0})) × (handle_post_created p fan_out w
              (some event)
              db.follows
              celebs
            ≡ some (d, r))
          × (r ≡ ok tt
              → All
                  (λ e. In event.user_id d.celebrities ⊎ In e.id d.pushed_to)
                  (followers_of event.user_id db.follows)))
unfolding handle_post_created follower_count_up_to
handle_delivers p fan_out w event db celebs runs counted calm v named = (
  λ followers run reach. run-Ends (with_defaults p).parallelism run (with_defaults_positive p).2,
  rw (handle_post_created, counted) (serve-Serves p fan_out runs w event db celebs calm v named),
)
