-- ===== src/Message/Window.antt =====
-- The pages of `GetMessages` (services/message/service/message.go) after a number.
use social_ai_backend.Common.{
  ℕ, zero, suc, ◌+◌, ◌≤◌, ◌≡◌, refl, sym, ap, subst, ◌∙◌, inl, inr, Bool, true, false, ◌&&◌, some,
  List, [], ◌∷◌, ltb, keep, arith, map, length, take, Text, text_eq, ok, Bool-cases, All,
  All-weaken, Pairwise, Pairwise-append, All-append, All-keep, lt→ltb,
}
use social_ai_backend.Common.Int.{ℤ, pos}
use social_ai_backend.Common.Sort.{sort, insert_sorted}
use social_ai_backend.Transaction.{Weather}
use social_ai_backend.Message.Names.{conversation_id}
use social_ai_backend.Message.Tables.{Db, MessageRow, seq_in}
use social_ai_backend.Message.Send.{Message}
use social_ai_backend.Message.Invariant.{IsValid, seqs, up_to, seq_in-seqs}
use social_ai_backend.Message.Page.{
  MessagePage, get_messages, window_of, page_after, select_after, limit_of, scanned, read_seq,
}

-- The numbers of a page's messages.
abbrev pub numbers : List Message → List ℕ
numbers = map (λ m. m.seq)

seqs_after :
    (id : Text) (a : ℕ) (ms : List MessageRow)
    → map (λ m. m.seq) (keep (λ m. text_eq id m.conversation_id && ltb a m.seq) ms)
      ≡ keep (ltb a) (seqs id ms)
seqs_after id a [] = refl
seqs_after id a (m ∷ ms) = elim (Bool-cases (text_eq id m.conversation_id)) [
  | inr e ↦ rw e (seqs_after id a ms)
  | inl e ↦ elim (Bool-cases (ltb a m.seq)) [
    | inl f ↦ rw (e, f, seqs_after id a ms) refl
    | inr f ↦ rw (e, f, seqs_after id a ms) refl
  ]
]

abbrev Rising : List ℕ → Type 0
Rising = Pairwise (λ x y. ltb x y ≡ true)

up_to-below : (n : ℕ) → All (λ x. x ≤ n) (up_to n)
up_to-below zero = tt
up_to-below (suc n) =
    All-append _ (up_to n) (suc n ∷ [])
      (All-weaken _ _ (λ x h. omega (arith, h)) (up_to n) (up_to-below n)) (omega arith, tt)

up_to-Rising : (n : ℕ) → Rising (up_to n)
up_to-Rising zero = tt
up_to-Rising (suc n) =
    Pairwise-append (λ x y. ltb x y ≡ true) (up_to n) (suc n ∷ []) (up_to-Rising n) (tt, tt)
      (All-weaken _ _ (λ x h. (lt→ltb x (suc n) (omega (arith, h)), tt)) (up_to n) (up_to-below n))

keep-Rising : (a : ℕ) (xs : List ℕ) → Rising xs → Rising (keep (ltb a) xs)
keep-Rising a [] h = tt
keep-Rising a (x ∷ xs) h = elim (Bool-cases (ltb a x)) [
  | inl e ↦ rw e (All-keep _ (ltb a) xs h.0, keep-Rising a xs h.1)
  | inr e ↦ rw e (keep-Rising a xs h.1)
]

above_rows :
    (n : ℕ) (ms : List MessageRow)
    → All (λ y. ltb n y ≡ true) (map (λ m. m.seq) ms)
    → All (λ b. ltb n b.seq ≡ true) ms
above_rows n [] h = tt
above_rows n (m ∷ ms) h = (h.0, above_rows n ms h.1)

abbrev earlier : MessageRow → MessageRow → Bool
earlier a b = ltb a.seq b.seq

insert_first :
    (m : MessageRow) (ms : List MessageRow)
    → All (λ b. ltb m.seq b.seq ≡ true) ms
    → insert_sorted earlier m ms ≡ m ∷ ms
unfolding insert_sorted
insert_first m [] h = refl
insert_first m (x ∷ ms) h = ground (arith, h.0)

-- Rows that stand in the order of their numbers are sorted already.
sort-Rising : (ms : List MessageRow) → Rising (map (λ m. m.seq) ms) → sort earlier ms ≡ ms
unfolding sort
sort-Rising [] h = refl
sort-Rising (m ∷ ms) h =
    ap (insert_sorted earlier m) (sort-Rising ms h.1) ∙ insert_first m ms (above_rows m.seq ms h.0)

map-take {ℓ κ} :
    {A : Type ℓ} {B : Type κ} (f : A → B) (n : ℕ) (xs : List A)
    → map f (take n xs) ≡ take n (map f xs)
map-take f zero xs = refl
map-take f (suc n) [] = refl
map-take f (suc n) (x ∷ xs) = ap (λ t. f x ∷ t) (map-take f n xs)

numbers-scanned :
    (user with_user : Text) (ms : List MessageRow)
    → numbers (map (scanned user with_user) ms) ≡ map (λ m. m.seq) ms
numbers-scanned user with_user [] = refl
numbers-scanned user with_user (m ∷ ms) = ap (λ t. m.seq ∷ t) (numbers-scanned user with_user ms)

-- The rows of the query, in a conversation without gaps.
select_after-numbers :
    (id : Text) (a k n : ℕ) (ms : List MessageRow)
    → seqs id ms ≡ up_to n
    → map (λ m. m.seq) (select_after id a k ms) ≡ take k (keep (ltb a) (up_to n))
unfolding select_after
select_after-numbers id a k n ms h =
    let rows = keep (λ m. text_eq id m.conversation_id && ltb a m.seq) ms in
    let known : map (λ m. m.seq) rows ≡ keep (ltb a) (up_to n) =
      seqs_after id a ms ∙ ap (keep (ltb a)) h in
    map-take (λ m. m.seq) k (sort earlier rows)
    ∙ rw
        (
          sort-Rising rows (subst Rising (sym known) (keep-Rising a (up_to n) (up_to-Rising n))),
          known,
        )
        refl

length-numbers : (msgs : List Message) → length (numbers msgs) ≡ length msgs
length-numbers [] = refl
length-numbers (m ∷ msgs) = ap suc (length-numbers msgs)

-- One more than the limit shows whether the limit cuts.
longer : (n : ℕ) (xs : List ℕ) → ltb n (length (take (suc n) xs)) ≡ ltb n (length xs)
longer zero [] = refl
longer zero (x ∷ xs) = ground arith
longer (suc n) [] = refl
longer (suc n) (x ∷ xs) = ground (arith, longer n xs)

take-take : (n : ℕ) (xs : List ℕ) → take n (take (suc n) xs) ≡ take n xs
take-take zero xs = refl
take-take (suc n) [] = refl
take-take (suc n) (x ∷ xs) = ap (λ t. x ∷ t) (take-take n xs)

take_short : (n : ℕ) (xs : List ℕ) → ltb n (length xs) ≡ false → take (suc n) xs ≡ take n xs
take_short zero [] h = refl
take_short zero (x ∷ xs) h = absurd (ground (arith, h))
take_short (suc n) [] h = refl
take_short (suc n) (x ∷ xs) h = ap (λ t. x ∷ t) (take_short n xs (ground (arith, h)))

page_after-numbers :
    (id : Text) (limit : ℕ) (msgs : List Message) (xs : List ℕ)
    → numbers msgs ≡ take (suc limit) xs
    → (numbers (page_after id limit msgs).messages ≡ take limit xs)
      × ((page_after id limit msgs).has_more ≡ ltb limit (length xs))
unfolding page_after
page_after-numbers id limit msgs xs h =
    let cut : ltb limit (length msgs) ≡ ltb limit (length xs) =
      ap (ltb limit) (sym (length-numbers msgs) ∙ ap length h) ∙ longer limit xs in
    elim (Bool-cases (ltb limit (length xs))) [
      | inl e ↦ rw (cut, e) (map-take (λ m. m.seq) limit msgs ∙ rw h (take-take limit xs), refl)
      | inr e ↦ rw (cut, e) (h ∙ take_short limit xs e, refl)
    ]

-- On well-formed tables, and when the database answers, a member of an existing conversation who
-- asks for the messages after a number gets the messages with the numbers above it, in order and
-- without a gap, up to the limit (50 if none is asked for, at most 200); and has_more tells
-- whether the limit cut them.
pub get_messages_after :
    (w : Weather) (user with_user : Text) (before : ℤ) (after : ℕ) (limit : ℤ) (last : ℕ) (db : Db)
    → IsValid db
    → w.fails 0 ≡ false
    → w.fails 1 ≡ false
    → seq_in (conversation_id user with_user) db.conversations ≡ some last
    → (page : MessagePage) × (get_messages w user with_user before (pos (suc after)) limit db
        ≡ ok page)
      × (numbers page.messages ≡ take (limit_of limit 50 200) (keep (ltb (suc after)) (up_to last)))
      × (page.has_more ≡ ltb (limit_of limit 50 200) (length (keep (ltb (suc after)) (up_to last))))
unfolding get_messages window_of
get_messages_after w user with_user before after limit last db v one two known = (
  record (page_after id (limit_of limit 50 200) (map (scanned user with_user) rows)) {
    last_read_seq = read_seq id with_user db.members;
  },
  rw (one, two) refl,
  shown.0,
  shown.1,
)
  where
    id : Text
    id = conversation_id user with_user

    rows : List MessageRow
    rows = select_after id (suc after) (limit_of limit 50 200 + 1) db.messages

    one_more : limit_of limit 50 200 + 1 ≡ suc (limit_of limit 50 200)
    one_more = omega arith

    shown :
        (numbers
            (page_after id (limit_of limit 50 200) (map (scanned user with_user) rows)).messages
          ≡ take (limit_of limit 50 200) (keep (ltb (suc after)) (up_to last)))
        × ((page_after id (limit_of limit 50 200) (map (scanned user with_user) rows)).has_more
            ≡ ltb (limit_of limit 50 200) (length (keep (ltb (suc after)) (up_to last))))
    shown =
        page_after-numbers id (limit_of limit 50 200) (map (scanned user with_user) rows)
          (keep (ltb (suc after)) (up_to last))
          (numbers-scanned user with_user rows
            ∙ select_after-numbers id (suc after) (limit_of limit 50 200 + 1) last db.messages
                (seq_in-seqs id db.conversations db.messages last v.gap_free known)
            ∙ ap (λ k. take k (keep (ltb (suc after)) (up_to last))) one_more)
