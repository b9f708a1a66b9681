-- ===== src/Social/Paging.antt =====
-- `AllFollowers` of shared/socialgraph/socialgraph.go: the pages put together.
use social_ai_backend.Common.{
  ℕ, zero, suc, ◌+◌, ◌-◌, ◌≤◌, ◌<◌, min, ◌≡◌, refl, sym, ap, subst, ◌∙◌, inl, inr, Bool, true,
  false, Option, none, some, List, [], ◌∷◌, ◌++◌, leb, leb→le, leb→gt, arith, Bool-cases, map,
  length, length-append, take, take_all, drop, take-append-drop, length-take, append_assoc, All,
  All-append_right, Pairwise, Text, is_empty, ok, err,
}
use mathlib.Core.List.{map-append}
use native.Mathlib.Decide.{dec_le}
use social_ai_backend.Common.Sort.{sort, sort-All}
use social_ai_backend.Transaction.{Weather}
use social_ai_backend.Social.Graph.{
  Result, FollowRow, Entry, Cursor, Page, cursor_at, newest, select_page, fill_page, page,
  followers_of, followers, read_followers, all_followers,
}
use social_ai_backend.Social.Follow.{Db}
use social_ai_backend.Social.Valid.{IsValid, followers_of-Distinct}
use social_ai_backend.Social.Order.{Distinct, first_rows, rows_after, fill_page_all, fill_page_cut}

abbrev ids_of : List Entry → List Text
ids_of = map (λ e. e.id)

length-ids_of : (es : List Entry) → length (ids_of es) ≡ length es
length-ids_of [] = refl
length-ids_of (e ∷ es) = ap suc (length-ids_of es)

take_front : (n : ℕ) (xs ys : List Entry) → length xs ≡ n → take n (xs ++ ys) ≡ xs
take_front zero [] ys h = refl
take_front zero (x ∷ xs) ys h = absurd (omega arith)
take_front (suc n) [] ys h = absurd (omega arith)
take_front (suc n) (x ∷ xs) ys h = ap (◌∷◌ x) (take_front n xs ys (omega arith))

module _ (w : Weather) (calm : (n : ℕ) → w.fails n ≡ false) (user : Text) (max : ℕ)
    (rows : List FollowRow) (distinct : Pairwise Distinct (followers_of user rows))
    (named : All (λ (e : Entry). is_empty e.id ≡ false) (followers_of user rows)) where
  abbrev all_sorted : List Entry
  all_sorted = sort newest (followers_of user rows)

  -- The cursor stands between what was read and the rest.
  record Stands (done rest : List Entry) (cur : Cursor) : Type 0 where
    whole : all_sorted ≡ done ++ rest
    ahead : (limit : ℕ) → select_page cur limit (followers_of user rows) ≡ take limit rest

  Stands-next :
      (done rest zs rest' ys : List Entry) (z : Entry) (cur : Cursor)
      → Stands done rest cur
      → zs ++ rest' ≡ rest
      → zs ≡ ys ++ z ∷ []
      → Stands (done ++ zs) rest' (cursor_at z)
  Stands-next done rest zs rest' ys z cur h e f =
      let parts : all_sorted ≡ (done ++ ys) ++ z ∷ rest' =
        h.whole
        ∙ ap (◌++◌ done) (sym e)
        ∙ rw f (
            ap (◌++◌ done) (append_assoc ys (z ∷ []) rest')
            ∙ sym (append_assoc done ys (z ∷ rest'))) in
      record {
        whole = h.whole ∙ ap (◌++◌ done) (sym e) ∙ sym (append_assoc done zs rest');
        ahead = λ limit.
            rows_after limit (followers_of user rows) (done ++ ys) rest' z distinct
              (All-append_right _ (done ++ ys) (z ∷ rest') (
                subst (All (λ (x : Entry). is_empty x.id ≡ false)) parts
                  (sort-All newest _ (followers_of user rows) named))).0
              parts;
      }

  -- A round after the test of the loop and the query.
  abbrev round : ℕ → ℕ → List Text → Bool → Result Page → Option (Result (List Text))
  round fuel n out full got = elim full [
    | true ↦ some (ok out)
    | false ↦ elim got [
      | err e ↦ some (err e)
      | ok p ↦ elim p.next [
        | none ↦ some (ok (out ++ p.ids))
        | some c ↦ read_followers w user max rows fuel (n + 1) (out ++ p.ids) c
      ]
    ]
  ]

  read_round :
      (fuel n : ℕ) (out : List Text) (cur : Cursor) (full : Bool) (got : Result Page)
      → leb max (length out) ≡ full
      → followers w n user cur (min 1000 (max - length out)) rows ≡ got
      → read_followers w user max rows (suc fuel) n out cur ≡ round fuel n out full got
  unfolding read_followers
  read_round fuel n out cur full got e f =
      subst
        (λ b.
          round fuel n out (leb max (length out))
            (followers w n user cur (min 1000 (max - length out)) rows)
          ≡ round fuel n out b got)
        e (ap (round fuel n out (leb max (length out))) f)

  page_at :
      (done rest : List Entry) (cur : Cursor) (n limit : ℕ)
      → Stands done rest cur
      → followers w n user cur limit rows ≡ ok (fill_page limit none (take (suc limit) rest))
  unfolding followers page
  page_at done rest cur n limit h =
      let one : limit + 1 ≡ suc limit = omega arith in
      rw (calm n)
        (ap (λ es. ok (fill_page limit none es)) (h.ahead (limit + 1) ∙ ap (λ k. take k rest) one))

  abbrev Reads : ℕ → ℕ → List Entry → Cursor → Type 0
  Reads fuel n done cur =
      read_followers w user max rows fuel n (ids_of done) cur
      ≡ some (ok (ids_of (take max all_sorted)))

  -- All that is wanted was read.
  done_full :
      (done rest : List Entry) (cur : Cursor)
      → Stands done rest cur
      → length done ≡ max
      → take max all_sorted ≡ done
  done_full done rest cur h e = ap (take max) h.whole ∙ take_front max done rest e

  -- All that there is was read.
  done_all :
      (done rest : List Entry) (cur : Cursor)
      → Stands done rest cur
      → length done + length rest ≤ max
      → ids_of done ++ ids_of rest ≡ ids_of (take max all_sorted)
  done_all done rest cur h e =
      sym (map-append _ done rest)
      ∙ ap ids_of (
          sym (
            ap (take max) h.whole
            ∙ take_all max (done ++ rest) (omega (arith, length-append done rest))))

  read_followers-Reads :
      (fuel n : ℕ) (done rest : List Entry) (cur : Cursor)
      → Stands done rest cur
      → length done ≤ max
      → max < fuel + length done
      → Reads fuel n done cur
  read_followers-Reads zero n done rest cur h le lt = absurd (omega arith)
  read_followers-Reads (suc fuel) n done rest cur h le lt =
      let limit = min 1000 (max - length (ids_of done)) in
      let at = page_at done rest cur n limit h in
      elim (Bool-cases (leb max (length (ids_of done)))) [
        | inl full ↦
            read_round fuel n (ids_of done) cur true _ full at
            ∙ ap (λ es. some (ok (ids_of es)))
                (sym (
                  done_full done rest cur h
                    (omega (arith, leb→le max (length (ids_of done)) full, length-ids_of done))))
        | inr more ↦
            let room = leb→gt max (length (ids_of done)) more in
            elim (dec_le (length rest) limit) [
              | yes fits ↦
                  read_round fuel n (ids_of done) cur false _ more
                    (at ∙ ap ok (fill_page_all limit none rest fits))
                  ∙ ap (λ ids. some (ok ids))
                      (done_all done rest cur h (omega (arith, length-ids_of done)))
              | no cut ↦
                  let (ys, z, same, filled) =
                    fill_page_cut limit rest (omega (arith, room)) (omega arith) in
                  read_round fuel n (ids_of done) cur false _ more (at ∙ ap ok filled)
                  ∙ ap (λ ids. read_followers w user max rows fuel (n + 1) ids (cursor_at z))
                      (sym (map-append _ done (take limit rest)))
                  ∙ read_followers-Reads fuel (n + 1) (done ++ take limit rest) (drop limit rest)
                      (cursor_at z)
                      (Stands-next done rest (take limit rest) (drop limit rest) ys z cur h
                        (take-append-drop limit rest) same)
                      (omega (
                        arith,
                        length-append done (take limit rest),
                        length-take limit rest,
                        length-ids_of done,
                        room,
                      ))
                      (omega (
                        arith,
                        length-append done (take limit rest),
                        length-take limit rest,
                        length-ids_of done,
                        room,
                      ))
            ]
      ]

  reads_all : all_followers w user max rows ≡ some (ok (ids_of (take max all_sorted)))
  unfolding all_followers
  reads_all =
      read_followers-Reads (max + 1) 0 [] all_sorted (record { t = 0; id = [] })
        (record { whole = refl; ahead = λ limit. first_rows limit (followers_of user rows) })
        (omega arith) (omega arith)

-- When the database answers, for a valid table in which no follower has an empty id, `AllFollowers`
-- reads its pages to the end, and what it returns are the first `max` followers in the order of the
-- list, newest first: the pages repeat nobody and skip nobody.
pub all_followers_lem :
    (w : Weather) (user : Text) (max : ℕ) (db : Db)
    → ((n : ℕ) → w.fails n ≡ false)
    → IsValid db
    → All (λ (e : Entry). is_empty e.id ≡ false) (followers_of user db.follows)
    → all_followers w user max db.follows
      ≡ some (ok (map (λ e. e.id) (take max (sort newest (followers_of user db.follows)))))
all_followers_lem w user max db calm v named =
    reads_all w calm user max db.follows (followers_of-Distinct user db.follows v.unique) named
