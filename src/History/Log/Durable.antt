-- ===== src/History/Log/Durable.antt =====
-- What the store guarantees: batches are indivisible, only valid entries are recorded, and `Open`
-- reads back what was appended.
use takt_ai.Base.{
  ℕ, suc, ◌≡◌, refl, sym, ap, ◌∙◌, Bool, true, false, Option, none, some, List, [], ◌∷◌, ◌++◌,
  arith, length, length-append, All,
}
use takt_ai.History.Entry.{Entry}
use takt_ai.History.Validate.{Fault, validate}
use takt_ai.History.Log.Defs.{
  resume, next_seen, AppendError, Codec, number, History, Encoded, and_row, or_fault, encode_all,
  commit, append_batch, replay_from, replay, IsDurable,
}
use takt_ai.History.Log.Defs.{ready, failed}
use mathlib.Core.List.{append_assoc, append-nil}

abbrev pub AllValid : List Entry → Type 0
AllValid es = All (λ e. validate e ≡ none) es

module _ (c : Codec) where
  open c use {Raw, marshal, unmarshal, unmarshal-marshal}

  -- A batch is ready when its first entry is valid and encoded, and its rest is ready.
  IsReady : List Raw → Option Fault → Option Raw → Encoded c → Type 0
  IsReady rs f m x =
      (r : Raw) × (rest : List Raw) × (f ≡ none) × (m ≡ some r) × (x ≡ ready rest) × (rs ≡ r ∷ rest)

  ready_inversion :
      (rs : List Raw) (f : Option Fault) (m : Option Raw) (x : Encoded c)
      → or_fault c f (and_row c m x) ≡ ready rs
      → IsReady rs f m x
  unfolding IsReady
  ready_inversion rs (some f) m x h = cc
  ready_inversion rs none none x h = cc
  ready_inversion rs none (some r) (failed y) h = cc
  ready_inversion rs none (some r) (ready rest) h = (r, rest, refl, refl, refl, cc)

  encode_valid : (es : List Entry) (rs : List Raw) → encode_all c es ≡ ready rs → AllValid es
  unfolding encode_all IsReady
  encode_valid [] rs h = tt
  encode_valid (e ∷ es) rs h =
      let (r, rest, valid, coded, more, _) =
        ready_inversion rs (validate e) (marshal e) (encode_all c es) h in
      (valid, encode_valid es rest more)

  next_row :
      (seen : List Entry) (e : Entry)
      → e.seq ≡ length seen
      → next_seen c seen (some e) ≡ some (seen ++ e ∷ [])
  next_row seen e s = ground arith

  -- One row that holds the next entry is read.
  replay_step :
      (seen : List Entry) (e : Entry) (r : Raw) (rs : List Raw)
      → unmarshal r ≡ some e
      → e.seq ≡ length seen
      → replay_from c seen (r ∷ rs) ≡ replay_from c (seen ++ e ∷ []) rs
  unfolding replay_from
  replay_step seen e r rs h s =
      ap (λ o. resume c (next_seen c seen o) (λ seen'. replay_from c seen' rs)) h
      ∙ ap (λ o. resume c o (λ seen'. replay_from c seen' rs)) (next_row seen e s)

  length_next : (seen : List Entry) (e : Entry) → length (seen ++ e ∷ []) ≡ suc (length seen)
  length_next seen e = length-append seen (e ∷ []) ∙ omega arith

  no_rows : (rs : List Raw) → ◌≡◌ {A = Encoded c} (ready []) (ready rs) → rs ≡ []
  no_rows [] h = refl
  no_rows (r ∷ rs) h = cc

  replay_numbered :
      (n : ℕ) (seen es : List Entry) (rs later : List Raw)
      → length seen ≡ n
      → encode_all c (number n es) ≡ ready rs
      → replay_from c seen (rs ++ later) ≡ replay_from c (seen ++ number n es) later
  unfolding encode_all IsReady
  replay_numbered n seen [] rs later l h = rw (no_rows rs h, append-nil seen) refl
  replay_numbered n seen (e ∷ es) rs later l h =
      let e' = record e { seq = n } in
      let (r, rest, valid, coded, more, same) =
        ready_inversion rs (validate e') (marshal e') (encode_all c (number (suc n) es)) h in
      rw same (
        replay_step seen e' r (rest ++ later) (unmarshal-marshal e' r coded) (sym l)
        ∙ replay_numbered (suc n) (seen ++ e' ∷ []) es rest later (length_next seen e' ∙ ap suc l)
            more
        ∙ ap (λ t. replay_from c t later) (append_assoc seen (e' ∷ []) (number (suc n) es)))

  replay_whole :
      (seen : List Entry) (es : List Entry) (rs : List Raw)
      → encode_all c (number (length seen) es) ≡ ready rs
      → replay_from c seen rs ≡ some (seen ++ number (length seen) es)
  unfolding replay_from
  replay_whole seen es rs h =
      ap (replay_from c seen) (sym (append-nil rs))
      ∙ replay_numbered (length seen) seen es rs [] refl h

  replay_from-append :
      (seen mid : List Entry) (rs later : List Raw)
      → replay_from c seen rs ≡ some mid
      → replay_from c seen (rs ++ later) ≡ replay_from c mid later
  unfolding replay_from
  replay_from-append seen mid [] later h = ap (λ t. replay_from c t later) (cc h)
  replay_from-append seen mid (r ∷ rs) later h =
      resumed (next_seen c seen (unmarshal r)) (λ s. replay_from-append s mid rs later) h
    where
      resumed :
          (o : Option (List Entry))
          → ((s : List Entry)
              → replay_from c s rs ≡ some mid
              → replay_from c s (rs ++ later) ≡ replay_from c mid later)
          → resume c o (λ s. replay_from c s rs) ≡ some mid
          → resume c o (λ s. replay_from c s (rs ++ later)) ≡ replay_from c mid later
      resumed none again h = cc
      resumed (some s) again h = again s h

  -- What a batch did: nothing, or all of it, in order and valid.
  abbrev pub Batched : History c → List Entry → Option AppendError × History c → Type 0
  Batched h es (some x, h') = h' ≡ h
  Batched h es (none, h') =
      (h'.entries ≡ h.entries ++ number (length h.entries) es)
      × AllValid (number (length h.entries) es)

  batched :
      (x : Encoded c) (commits : Bool) (h : History c) (es : List Entry)
      → encode_all c (number (length h.entries) es) ≡ x
      → Batched h es (commit c x commits h (number (length h.entries) es))
  batched (failed x) commits h es q = refl
  batched (ready rs) false h es q = refl
  batched (ready rs) true h es q = (refl, encode_valid _ rs q)

  -- A batch is recorded whole, at the end, numbered and valid, or leaves the store as it was.
  pub append_batch_lem :
      (commits : Bool) (h : History c) (es : List Entry)
      → Batched h es (append_batch c commits h es)
  unfolding append_batch
  append_batch_lem commits h es = batched _ commits h es refl

  durable :
      (x : Encoded c) (commits : Bool) (h : History c) (es : List Entry)
      → encode_all c (number (length h.entries) es) ≡ x
      → IsDurable c h
      → IsDurable c (commit c x commits h (number (length h.entries) es)).1
  unfolding replay
  durable (failed x) commits h es q d = d
  durable (ready rs) false h es q d = d
  durable (ready rs) true h es q d =
      replay_from-append [] h.entries h.rows rs d ∙ replay_whole h.entries es rs q

  -- Where `Open` would read exactly what memory holds, it still does after a batch, whatever the
  -- entries and the database's answer are.
  pub append_batch-IsDurable :
      (commits : Bool) (h : History c) (es : List Entry)
      → IsDurable c h
      → IsDurable c (append_batch c commits h es).1
  unfolding append_batch
  append_batch-IsDurable commits h es d = durable _ commits h es refl d
