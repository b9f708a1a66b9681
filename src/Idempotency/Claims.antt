-- ===== src/Idempotency/Claims.antt =====
-- One key of shared/idempotency/idempotency.go, before its entry expires. What the store relies on in
-- Redis is the documented effect of each command; one that returns an error had its effect or none.
use social_ai_backend.Common.{
  ℕ, ◌≡◌, ◌≢◌, refl, sym, ap, arith, ◌∙◌, ◌⊎◌, inl, inr, Bool, true, false, Option, none, some,
  List, [], ◌∷◌, Bool-cases, Option-cases, if◌then◌else◌, Text, text_eq, Attempt, ok, err,
}
use social_ai_backend.Idempotency.{
  Kv, Response, is_done, Entry, IdempotencyError, in_progress, key_reused, claim_failed, Ttl, ttl,
  redis_key, claim_of, result_of, answer_of, read_entry, claimed, begin, complete, runs_handler,
}

pub record KvLaws {S : Type 0} (kv : Kv S) : Type 0 where
  -- The text at a key.
  pub value : S → Text → Option Text
  -- SET with NX.
  pub set_nx_claimed :
      (k v : Text) (d : ℕ) (s : S)
      → (kv.set_nx k v d s).1 ≡ some true
      → (value s k ≡ none) × (value (kv.set_nx k v d s).0 k ≡ some v)
  pub set_nx_taken :
      (k v : Text) (d : ℕ) (s : S)
      → (kv.set_nx k v d s).1 ≡ some false
      → value (kv.set_nx k v d s).0 k ≡ value s k
  pub set_nx_failed :
      (k v : Text) (d : ℕ) (s : S)
      → (kv.set_nx k v d s).1 ≡ none
      → (value (kv.set_nx k v d s).0 k ≡ value s k)
        ⊎ ((value s k ≡ none) × (value (kv.set_nx k v d s).0 k ≡ some v))
  -- GET.
  pub get_found : (k raw : Text) (s : S) → kv.get k s ≡ some raw → value s k ≡ some raw
  -- SET and DEL.
  pub set_done :
      (k v : Text) (d : ℕ) (s : S) → (kv.set k v d s).1 ≡ true → value (kv.set k v d s).0 k ≡ some v
  pub delete_done : (k : Text) (s : S) → (kv.delete k s).1 ≡ true → value (kv.delete k s).0 k ≡ none

abbrev pub Answer : Type 0
Answer = Attempt IdempotencyError (Option Response)

err_ne : {e : IdempotencyError} {o : Option Response} → ¬ ◌≡◌ {A = Answer} (err e) (ok o)
err_ne h = absurd (cc)

some_ne_none : {r : Response} → ¬ ◌≡◌ {A = Answer} (ok (some r)) (ok none)
some_ne_none h = absurd (cc)

none_ne_some : {a : Text} → ¬ ◌≡◌ {A = Option Text} none (some a)
none_ne_some h = absurd (cc)

-- A key with an entry lets no request through.
answer_of_ne : (fingerprint : Text) (e : Entry) → answer_of fingerprint e ≢ ok none
unfolding answer_of
answer_of_ne fingerprint e h = elim (Bool-cases (text_eq e.fingerprint fingerprint)) [
  | inr other ↦ err_ne (rw other at h)
  | inl same ↦ elim (Option-cases e.response) [
    | inl f ↦ err_ne (rw (same, f) at h)
    | inr (resp, f) ↦ elim (Bool-cases (is_done e.phase)) [
      | inl g ↦ some_ne_none (rw (same, f, g) at h)
      | inr g ↦ err_ne (rw (same, f, g) at h)
    ]
  ]
]

-- A claim sends nobody else to the handler.
runs_handler-claim_of :
    (fingerprint fingerprint' : Text)
    → runs_handler (answer_of fingerprint' (claim_of fingerprint)) ≡ false
unfolding runs_handler answer_of
runs_handler-claim_of fingerprint fingerprint' =
    elim (Bool-cases (text_eq fingerprint fingerprint')) [ inl e ↦ rw e refl | inr e ↦ rw e refl ]

-- What a request gets after a response was stored.
abbrev pub replay : Text → Text → Response → Answer
replay fingerprint fingerprint' resp =
    if text_eq fingerprint fingerprint' then ok (some resp) else err key_reused

answer_of-result_of :
    (fingerprint fingerprint' : Text) (resp : Response)
    → answer_of fingerprint' (result_of fingerprint resp) ≡ replay fingerprint fingerprint' resp
unfolding answer_of
answer_of-result_of fingerprint fingerprint' resp =
    elim (Bool-cases (text_eq fingerprint fingerprint')) [ inl e ↦ rw e refl | inr e ↦ rw e refl ]

module _ {S : Type 0} {kv : Kv S} (laws : KvLaws kv) (encode : Entry → Text)
    (decode : Text → Option Entry) (round_trip : (e : Entry) → decode (encode e) ≡ some e) (t : Ttl)
    (scope user key : Text) where
  abbrev k : Text
  k = redis_key scope user key

  abbrev pub start : Text → S → S × Attempt IdempotencyError (Option Response)
  start = begin kv encode decode t scope user key

  -- What SETNX answers to a request.
  abbrev pub claiming : Text → S → S × Option Bool
  claiming fingerprint s = kv.set_nx k (encode (claim_of fingerprint)) (ttl t).0 s

  -- The answer to a request, after what SETNX gave it: what the entry says, or what an error of SETNX or of
  -- GET makes of it.
  abbrev pub Answers : Answer → S × Option Bool → Answer → Type 0
  Answers said p r =
      (r ≡ said)
      ⊎ (((p.1 ≡ none) × (r ≡ err claim_failed)) ⊎ ((kv.get k p.0 ≡ none) × (r ≡ err in_progress)))

  -- What a request meets that finds an entry, which stays.
  abbrev pub Meets : Text → Entry → S → S × Option Bool → S × Answer → Type 0
  Meets fingerprint e s p r =
      (laws.value r.0 k ≡ laws.value s k) × Answers (answer_of fingerprint e) p r.1

  some_inj : {a b : Text} → some a ≡ some b → a ≡ b
  some_inj e = cc

  claimed-Meets :
      (fingerprint : Text) (e : Entry) (s : S) (p : S × Option Bool)
      → laws.value s k ≡ some (encode e)
      → laws.value p.0 k ≡ laws.value s k
      → p.1 ≢ some true
      → Meets fingerprint e s p (claimed kv encode decode t k fingerprint p)
  unfolding claimed read_entry
  claimed-Meets fingerprint e s (s', none) held same ne = (same, inr (inl (refl, refl)))
  claimed-Meets fingerprint e s (s', some true) held same ne = absurd (ne refl)
  claimed-Meets fingerprint e s (s', some false) held same ne = elim (Option-cases (kv.get k s')) [
    | inl f ↦ rw f (same, inr (inr (refl, refl)))
    | inr (raw, f) ↦
        let raw_is : raw ≡ encode e = some_inj (sym (laws.get_found k raw s' f) ∙ same ∙ held) in
        rw (f, raw_is, read_entry, round_trip e) (same, inl refl)
  ]

  begin-Meets :
      (fingerprint : Text) (e : Entry) (s : S)
      → laws.value s k ≡ some (encode e)
      → Meets fingerprint e s (claiming fingerprint s) (start fingerprint s)
  unfolding begin
  begin-Meets fingerprint e s held =
      let v = encode (claim_of fingerprint) in
      let d = (ttl t).0 in
      elim (Option-cases (kv.set_nx k v d s).1) [
        | inl f ↦
            claimed-Meets fingerprint e s (kv.set_nx k v d s) held
              (elim (laws.set_nx_failed k v d s f) [
                | inl same ↦ same
                | inr (empty, _) ↦ absurd (none_ne_some (sym empty ∙ held))
              ])
              (λ h. cc)
        | inr (true, f) ↦ absurd (none_ne_some (sym (laws.set_nx_claimed k v d s f).0 ∙ held))
        | inr (false, f) ↦
            claimed-Meets fingerprint e s (kv.set_nx k v d s) held (laws.set_nx_taken k v d s f)
              (λ h. cc)
      ]

  read_entry_ne :
      (fingerprint : Text) (raw : Option Text)
      → read_entry kv encode decode t fingerprint raw ≢ ok none
  unfolding read_entry
  read_entry_ne fingerprint none h = err_ne h
  read_entry_ne fingerprint (some raw) h = elim (Option-cases (decode raw)) [
    | inl f ↦ err_ne (rw (read_entry, f) at h)
    | inr (e, f) ↦ answer_of_ne fingerprint e (rw (read_entry, f) at h)
  ]

  -- A request that is let through holds the key.
  claimed_held :
      (fingerprint v : Text) (p : S × Option Bool)
      → (p.1 ≡ some true → laws.value p.0 k ≡ some v)
      → (claimed kv encode decode t k fingerprint p).1 ≡ ok none
      → laws.value (claimed kv encode decode t k fingerprint p).0 k ≡ some v
  unfolding claimed
  claimed_held fingerprint v (s, none) h e = absurd (err_ne e)
  claimed_held fingerprint v (s, some true) h e = h refl
  claimed_held fingerprint v (s, some false) h e = absurd (read_entry_ne fingerprint (kv.get k s) e)

  begin_held :
      (fingerprint : Text) (s : S)
      → (start fingerprint s).1 ≡ ok none
      → laws.value (start fingerprint s).0 k ≡ some (encode (claim_of fingerprint))
  unfolding begin
  begin_held fingerprint s =
      let v = encode (claim_of fingerprint) in
      claimed_held fingerprint v (kv.set_nx k v (ttl t).0 s)
        (λ h. (laws.set_nx_claimed k v (ttl t).0 s h).1)

  -- Requests with the key, by their fingerprints, one after the other.
  abbrev pub starts : List Text → S → S
  starts [] s = s
  starts (fingerprint ∷ rest) s = starts rest (start fingerprint s).0

  starts_held :
      (fingerprints : List Text) (e : Entry) (s : S)
      → laws.value s k ≡ some (encode e)
      → laws.value (starts fingerprints s) k ≡ some (encode e)
  starts_held [] e s held = held
  starts_held (f ∷ fs) e s held = starts_held fs e (start f s).0 ((begin-Meets f e s held).0 ∙ held)

  refused :
      (fingerprint fingerprint' : Text) (p : S × Option Bool) (r : Answer)
      → Answers (answer_of fingerprint' (claim_of fingerprint)) p r
      → runs_handler r ≡ true
      → p.1 ≡ none
  unfolding runs_handler
  refused fingerprint fingerprint' p r (inl h) n =
      absurd (
        ground (arith, runs_handler-claim_of fingerprint fingerprint', sym (ap runs_handler h) ∙ n))
  refused fingerprint fingerprint' p r (inr (inl h)) n = h.0
  refused fingerprint fingerprint' p r (inr (inr h)) n =
      absurd (ground (arith, sym (ap runs_handler h.1) ∙ n))

  -- While a request that claimed its key has neither completed nor released it, and the claim has not
  -- expired, `withIdempotency` runs the handler of another request with the key, however many come and
  -- with whatever fingerprint, only if SETNX returned an error to this very request.
  pub begin_excludes :
      (fingerprint : Text) (others : List Text) (fingerprint' : Text) (s : S)
      → (start fingerprint s).1 ≡ ok none
      → runs_handler (start fingerprint' (starts others (start fingerprint s).0)).1 ≡ true
      → (claiming fingerprint' (starts others (start fingerprint s).0)).1 ≡ none
  begin_excludes fingerprint others fingerprint' s let_through =
      let e = claim_of fingerprint in
      let at = starts others (start fingerprint s).0 in
      refused fingerprint fingerprint' (claiming fingerprint' at) (start fingerprint' at).1
        (begin-Meets fingerprint' e at
          (starts_held others e (start fingerprint s).0 (begin_held fingerprint s let_through))).1

  -- The state that a request finds which comes after `Complete` and after some other requests.
  abbrev pub after_complete : Text → Response → List Text → S → S
  after_complete fingerprint resp others s =
      starts others (complete kv encode decode t scope user key fingerprint resp s).0

  -- After `Complete` stored a response, and before it expires, every request with the key, however many
  -- come, gets this response if its fingerprint is the first request's and `ErrKeyReused` if not; or SETNX
  -- returned an error to this very request, and it gets an error that says so; or GET gave no value to
  -- it, and it is told that the request is in progress.
  pub complete_replays :
      (fingerprint : Text) (resp : Response) (others : List Text) (fingerprint' : Text) (s : S)
      → (complete kv encode decode t scope user key fingerprint resp s).1 ≡ true
      → Answers
          (replay fingerprint fingerprint' resp)
          (claiming fingerprint' (after_complete fingerprint resp others s))
          (start fingerprint' (after_complete fingerprint resp others s)).1
  unfolding complete
  complete_replays fingerprint resp others fingerprint' s stored =
      let e = result_of fingerprint resp in
      let done_at = (complete kv encode decode t scope user key fingerprint resp s).0 in
      let held = laws.set_done k (encode e) (ttl t).1 s stored in
      let met =
        (begin-Meets fingerprint' e (starts others done_at)
          (starts_held others e done_at held)).1 in
      elim met [
        | inl h ↦ inl (h ∙ answer_of-result_of fingerprint fingerprint' resp)
        | inr h ↦ inr h
      ]
