-- ===== src/Examples/Retrying.antt =====
-- A Redis that is a function from keys to texts, and entries written as lists of numbers.
use social_ai_backend.Common.{
  ℕ, zero, suc, ◌≡◌, refl, ap, ◌⊎◌, inl, inr, Bool, true, false, Option, none, some, [], ◌∷◌, ◌++◌,
  arith, if◌then◌else◌, length, take, drop, Text, text_eq, text_eq_refl, ok,
}
use social_ai_backend.Common.Int.{pos}
use social_ai_backend.Idempotency.{
  Kv, Response, Phase, running, done, other, Entry, Ttl, begin, claimed, complete, runs_handler,
}
use social_ai_backend.Idempotency.Claims.{
  KvLaws, begin_excludes, complete_replays, start, starts, claiming, after_complete, replay,
  Answers,
}

abbrev Keys : Type 0
Keys = Text → Option Text

abbrev write : Text → Option Text → Keys → Keys
write k v s l = if text_eq k l then v else s l

unfoldable set_absent : Text → Text → Keys → Option Text → Keys × Option Bool
set_absent k v s none = (write k (some v) s, some true)
set_absent k v s (some _) = (s, some false)

abbrev keys_kv : Kv Keys
keys_kv = record {
  set_nx = λ k v d s. set_absent k v s (s k);
  get = λ k s. s k;
  set = λ k v d s. (write k (some v) s, true);
  delete = λ k s. (write k none s, true);
}

write_lem : (k : Text) (v : Option Text) (s : Keys) → write k v s k ≡ v
write_lem k v s = rw (text_eq_refl k) refl

absent_claimed :
    (k v : Text) (s : Keys) (o : Option Text)
    → (set_absent k v s o).1 ≡ some true
    → (o ≡ none) × ((set_absent k v s o).0 k ≡ some v)
unfolding set_absent
absent_claimed k v s none h = (refl, write_lem k (some v) s)
absent_claimed k v s (some t) h = absurd (ground (arith, h))

absent_taken :
    (k v : Text) (s : Keys) (o : Option Text)
    → (set_absent k v s o).1 ≡ some false
    → (set_absent k v s o).0 k ≡ s k
unfolding set_absent
absent_taken k v s none h = absurd (ground (arith, h))
absent_taken k v s (some t) h = refl

absent_answers : (k v : Text) (s : Keys) (o : Option Text) → ¬ ((set_absent k v s o).1 ≡ none)
unfolding set_absent
absent_answers k v s none h = absurd (cc)
absent_answers k v s (some t) h = absurd (cc)

unfoldable deaf : Text → Text → Keys → Option Text → Keys × Option Bool
deaf k v s none = (write k (some v) s, some true)
deaf k v s (some _) = (s, none)

deaf_claimed :
    (k v : Text) (s : Keys) (o : Option Text)
    → (deaf k v s o).1 ≡ some true
    → (o ≡ none) × ((deaf k v s o).0 k ≡ some v)
unfolding deaf
deaf_claimed k v s none h = (refl, write_lem k (some v) s)
deaf_claimed k v s (some t) h = cc

deaf_taken :
    (k v : Text) (s : Keys) (o : Option Text)
    → (deaf k v s o).1 ≡ some false
    → (deaf k v s o).0 k ≡ s k
unfolding deaf
deaf_taken k v s none h = absurd (ground (arith, h))
deaf_taken k v s (some t) h = refl

deaf_failed :
    (k v : Text) (s : Keys) (o : Option Text)
    → (deaf k v s o).1 ≡ none
    → ((deaf k v s o).0 k ≡ s k) ⊎ ((o ≡ none) × ((deaf k v s o).0 k ≡ some v))
unfolding deaf
deaf_failed k v s none h = inr (refl, write_lem k (some v) s)
deaf_failed k v s (some t) h = inl refl

keys_laws : KvLaws keys_kv
keys_laws = record {
  value = λ s k. s k;
  set_nx_claimed = λ k v d s. absent_claimed k v s (s k);
  set_nx_taken = λ k v d s. absent_taken k v s (s k);
  set_nx_failed = λ k v d s h. absurd (absent_answers k v s (s k) h);
  get_found = λ k raw s h. h;
  set_done = λ k v d s h. write_lem k (some v) s;
  delete_done = λ k s h. write_lem k none s;
}

abbrev code_of : Phase → ℕ
code_of running = 0
code_of done = 1
code_of other = 2

abbrev phase_of : ℕ → Phase
phase_of zero = running
phase_of (suc zero) = done
phase_of (suc (suc n)) = other

abbrev response_code : Option Response → Text
response_code none = []
response_code (some r) = r.status ∷ r.body

abbrev response_of : Text → Option Response
response_of [] = none
response_of (c ∷ s) = some (record { status = c; body = s })

abbrev encode : Entry → Text
encode e = code_of e.phase ∷ length e.fingerprint ∷ (e.fingerprint ++ response_code e.response)

abbrev decode : Text → Option Entry
decode [] = none
decode (p ∷ []) = none
decode (p ∷ n ∷ s) =
    some (record { phase = phase_of p; fingerprint = take n s; response = response_of (drop n s) })

phase_round : (p : Phase) → phase_of (code_of p) ≡ p
phase_round running = refl
phase_round done = refl
phase_round other = refl

response_round : (r : Option Response) → response_of (response_code r) ≡ r
response_round none = refl
response_round (some r) = refl

take_round : (s u : Text) → take (length s) (s ++ u) ≡ s
take_round [] u = refl
take_round (c ∷ s) u = ap (◌∷◌ c) (take_round s u)

drop_round : (s u : Text) → drop (length s) (s ++ u) ≡ u
drop_round [] u = refl
drop_round (c ∷ s) u = drop_round s u

round_trip : (e : Entry) → decode (encode e) ≡ some e
round_trip e =
    rw
      (
        phase_round e.phase,
        take_round e.fingerprint (response_code e.response),
        drop_round e.fingerprint (response_code e.response),
        response_round e.response,
      )
      refl

abbrev standard_ttl : Ttl
standard_ttl = record { lock_ttl = pos 0; result_ttl = pos 0 }

abbrev no_keys : Keys
no_keys l = none

abbrev fp : Text
fp = b'f' ∷ []

abbrev created : Response
created = record { status = 200; body = [] }

-- A Redis that stops to answer SETNX once a key is taken.
abbrev deaf_kv : Kv Keys
deaf_kv = record keys_kv { set_nx = λ k v d s. deaf k v s (s k) }

deaf_laws : KvLaws deaf_kv
unfolding deaf
deaf_laws = record {
  value = λ s k. s k;
  set_nx_claimed = λ k v d s. deaf_claimed k v s (s k);
  set_nx_taken = λ k v d s. deaf_taken k v s (s k);
  set_nx_failed = λ k v d s. deaf_failed k v s (s k);
  get_found = λ k raw s h. h;
  set_done = λ k v d s h. write_lem k (some v) s;
  delete_done = λ k s h. write_lem k none s;
}

abbrev first_on_deaf : Keys
first_on_deaf = (start deaf_laws encode decode round_trip standard_ttl [] [] [] fp no_keys).0

claimed_on_deaf : (begin deaf_kv encode decode standard_ttl [] [] [] fp no_keys).1 ≡ ok none
unfolding begin claimed deaf
claimed_on_deaf = refl

second_runs :
    runs_handler
      (start deaf_laws encode decode round_trip standard_ttl [] [] [] fp
        (starts deaf_laws encode decode round_trip standard_ttl [] [] [] (fp ∷ []) first_on_deaf)).1
    ≡ true
unfolding begin claimed deaf runs_handler text_eq
second_runs = refl

begin_excludes_example :
    (claiming deaf_laws encode decode round_trip standard_ttl [] [] [] fp
      (starts deaf_laws encode decode round_trip standard_ttl [] [] [] (fp ∷ []) first_on_deaf)).1
    ≡ none
begin_excludes_example =
    begin_excludes deaf_laws encode decode round_trip standard_ttl [] [] [] fp (fp ∷ []) fp no_keys
      claimed_on_deaf second_runs

abbrev completed : Keys
completed =
    after_complete keys_laws encode decode round_trip standard_ttl [] [] [] fp created (fp ∷ [])
      no_keys

complete_replays_example :
    Answers keys_laws encode decode round_trip standard_ttl [] [] []
      (replay fp fp created)
      (claiming keys_laws encode decode round_trip standard_ttl [] [] [] fp completed)
      (start keys_laws encode decode round_trip standard_ttl [] [] [] fp completed).1
unfolding complete
complete_replays_example =
    complete_replays keys_laws encode decode round_trip standard_ttl [] [] [] fp created (fp ∷ [])
      fp no_keys refl
