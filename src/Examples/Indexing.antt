-- ===== src/Examples/Indexing.antt =====
-- A small table and its index: a stale row is written after a newer one, and the index is rebuilt.
use social_ai_backend.Common.{
  ℕ, ◌≤◌, ◌≡◌, refl, false, true, none, some, [], ◌∷◌, arith, length, All, here, there, Text,
  text_eq, text_lt, ok,
}
use social_ai_backend.Common.Sort.{StrictlySorted}
use social_ai_backend.Indexer.{
  PostRow, State, Stored, World, set_at, doc_of, indexed, index_versioned, reindex,
}
use social_ai_backend.Indexer.Steps.{
  System, IsFaithful, Reach, next, loads, creates, changes, writes, with_rows,
}
use social_ai_backend.Indexer.Convergence.{Reach-IsFaithful, index_converges}
use social_ai_backend.Indexer.Current.{IsCurrent, Answers}
use social_ai_backend.Indexer.SyncAll.{ArePresent}
use social_ai_backend.Indexer.Rebuild.{reindex-IsCurrent}

abbrev first_id : Text
first_id = 1 ∷ []

abbrev second_id : Text
second_id = 2 ∷ []

abbrev young : PostRow ℕ
young = record {
  id = first_id;
  user_id = 9 ∷ [];
  message = 7 ∷ [];
  type = [];
  created_at = 5;
  deleted = false;
  embedding = none;
  version = 1;
}

abbrev gone : PostRow ℕ
gone = record young { deleted = true; version = 2 }

abbrev other : PostRow ℕ
other = record young { id = second_id }

abbrev no_rows_yet : System ℕ
no_rows_yet = record {
  state = record { ids = first_id ∷ second_id ∷ []; rows = λ _. none; docs = λ _. none };
  in_hand = [];
}

no_rows_yet-IsFaithful : IsFaithful no_rows_yet
no_rows_yet-IsFaithful = record {
  consistent = record { keyed = λ id r h. cc; projected = λ id d h. cc };
  all_read = tt;
}

abbrev created_one : System ℕ
created_one = with_rows no_rows_yet (set_at first_id young (λ _. none))

abbrev created_two : System ℕ
created_two = with_rows created_one (set_at second_id other created_one.state.rows)

two_created : Reach no_rows_yet created_two
unfolding text_eq
two_created = next (next Reach.here (creates young refl)) (creates other refl)

-- One indexer reads the young row, the post is deleted, another reads the row and writes it, and the first
-- one writes what it has.
abbrev deleted_rows : System ℕ
deleted_rows =
    with_rows (record created_two { in_hand = young ∷ [] })
      (set_at first_id gone created_two.state.rows)

abbrev both_read : System ℕ
both_read = record deleted_rows { in_hand = gone ∷ young ∷ [] }

abbrev new_written : System ℕ
new_written = record both_read { state = indexed gone both_read.state }

abbrev both_written : System ℕ
both_written = record new_written { state = indexed young new_written.state }

late_write : Reach no_rows_yet both_written
unfolding text_eq
late_write =
    next
      (next
        (next
          (next (next two_created (loads first_id young refl)) (
            changes first_id young gone refl (record {
              same_id = refl;
              same_author = refl;
              same_message = refl;
              same_type = refl;
              same_time = refl;
              newer = omega arith;
            })))
          (loads first_id gone refl))
        (writes gone here))
      (writes young (there here))

tombstone_stays :
    both_written.state.docs first_id ≡ some (record { doc = doc_of gone; version = 2 })
unfolding indexed index_versioned text_eq
tombstone_stays = refl

index_converges_example :
    ((id : Text) (d : Stored ℕ)
      → both_written.state.docs id ≡ some d
      → (now : PostRow ℕ) × (both_written.state.rows id ≡ some now)
        × (d.version ≤ now.version)
        × (d.version ≡ now.version → d.doc ≡ doc_of now))
    × ((id : Text) (d : Stored ℕ)
        → no_rows_yet.state.docs id ≡ some d
        → (d' : Stored ℕ) × (both_written.state.docs id ≡ some d') × (d.version ≤ d'.version))
index_converges_example = index_converges no_rows_yet-IsFaithful late_write

abbrev answering : World ℕ
answering = record {
  fails = λ _. false;
  lost = false;
  embedding_of = some (λ m. some (length m));
  es_fails = false;
  es_lost = false;
}

answering-Answers : Answers answering
answering-Answers = record { db = λ n. refl; es = refl }

ids_sorted : StrictlySorted text_lt (first_id ∷ second_id ∷ [])
unfolding text_lt
ids_sorted = ((refl, tt), (tt, tt))

two_present : ArePresent created_two.state (first_id ∷ second_id ∷ [])
unfolding text_eq
two_present = ((young, refl), ((other, refl), tt))

reindex-IsCurrent_example :
    (s' : State ℕ) × (reindex (λ _. false) (λ _. answering) 1 3 created_two.state
      ≡ some (s', 2, ok tt))
    × All (λ id. IsCurrent id s') (first_id ∷ second_id ∷ [])
reindex-IsCurrent_example =
    reindex-IsCurrent (λ _. answering) (λ _. false) 1 3 created_two.state (λ id. answering-Answers)
      (λ n. refl) (omega arith) (omega arith) ids_sorted (refl, (refl, tt)) two_present
      (Reach-IsFaithful two_created no_rows_yet-IsFaithful).consistent
