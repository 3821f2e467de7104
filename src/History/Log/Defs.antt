-- ===== src/History/Log/Defs.antt =====
-- `History` of takt/history/history.go: the append-only store, its replay at `Open`, and `ReadPage`.
-- SQLite and the JSON encoding are parameters: a codec with its round trip, and the database's answer
-- to one transaction.
use takt_ai.Base.{
  ℕ, suc, max, min, String, ◌≡◌, Bool, true, false, ◌&&◌, ◌||◌, Option, none, some, List, [], ◌∷◌,
  ◌++◌, eqb, ◌==◌, if◌then◌else◌, length,
}
use takt_ai.Base.Text.{pos, negsuc, ℤ, lt_ℤ}
use takt_ai.History.Entry.{Entry}
use takt_ai.History.Validate.{Fault, validate}

pub data AppendError : Type 0 where
  invalid : Fault → AppendError
  unencodable store_failed : AppendError

-- What encoding/json does for an entry: what was written is read back.
pub record Codec : Type 1 where
  pub Raw : Type 0
  pub marshal : Entry → Option Raw
  pub unmarshal : Raw → Option Entry
  pub unmarshal-marshal : (e : Entry) (r : Raw) → marshal e ≡ some r → unmarshal r ≡ some e

-- `entries[i].Seq = len(h.entries) + i`
abbrev pub number : ℕ → List Entry → List Entry
number n [] = []
number n (e ∷ es) = record e { seq = n } ∷ number (suc n) es

module _ (c : Codec) where
  open c use {Raw, marshal, unmarshal, unmarshal-marshal}

  -- The rows of table `history` in the order of their `seq`, beside the entries held in memory.
  pub record History : Type 0 where
    pub rows : List Raw
    pub entries : List Entry

  -- The first loop of AppendBatch: each entry is validated and encoded before anything is written.
  pub data Encoded : Type 0 where
    ready : List Raw → Encoded
    failed : AppendError → Encoded

  abbrev pub and_row : Option Raw → Encoded → Encoded
  and_row none rest = failed AppendError.unencodable
  and_row (some r) (ready rs) = ready (r ∷ rs)
  and_row (some r) (failed x) = failed x

  abbrev pub or_fault : Option Fault → Encoded → Encoded
  or_fault (some f) rest = failed (invalid f)
  or_fault none rest = rest

  unfoldable pub encode_all : List Entry → Encoded
  encode_all [] = ready []
  encode_all (e ∷ es) = or_fault (validate e) (and_row (marshal e) (encode_all es))

  abbrev pub commit : Encoded → Bool → History → List Entry → Option AppendError × History
  commit (failed x) commits h es = (some x, h)
  commit (ready rs) false h es = (some store_failed, h)
  commit (ready rs) true h es = (none, record { rows = h.rows ++ rs; entries = h.entries ++ es })

  -- AppendBatch: `commits` is the database's answer to the transaction.
  unfoldable pub append_batch : Bool → History → List Entry → Option AppendError × History
  unfolding encode_all
  append_batch commits h es =
      let numbered = number (length h.entries) es in commit (encode_all numbered) commits h numbered

  -- One row of replay: rejects a row that is no entry, and a gap in the sequence.
  abbrev pub next_seen : List Entry → Option Entry → Option (List Entry)
  next_seen seen none = none
  next_seen seen (some e) = if eqb e.seq (length seen) then some (seen ++ e ∷ []) else none

  abbrev pub resume : Option (List Entry) → (List Entry → Option (List Entry)) → Option (List Entry)
  resume none f = none
  resume (some seen) f = f seen

  unfoldable pub replay_from : List Entry → List Raw → Option (List Entry)
  replay_from seen [] = some seen
  replay_from seen (r ∷ rs) = resume (next_seen seen (unmarshal r)) (λ seen'. replay_from seen' rs)

  unfoldable pub replay : List Raw → Option (List Entry)
  unfolding replay_from
  replay rs = replay_from [] rs

  -- What `Open` would read is what memory holds.
  abbrev pub IsDurable : History → Type 0
  IsDurable h = replay h.rows ≡ some h.entries

-- `limit = max(1, min(limit, MaxPageSize))`
abbrev pub max_page_size : ℕ
max_page_size = 500

abbrev pub page_limit : ℤ → ℕ
page_limit (pos n) = max 1 (min n max_page_size)
page_limit (negsuc n) = 1

unfoldable pub on_page : String → String → ℤ → Entry → Bool
on_page session unit after e =
    lt_ℤ after (pos e.seq)
    && ((session == "" || e.session == session) && (unit == "" || e.work_unit == unit))

-- The loop of ReadPage over the entries, with the page so far.
unfoldable pub fill_page : (Entry → Bool) → ℕ → List Entry → List Entry → List Entry
fill_page wanted limit page [] = page
fill_page wanted limit page (e ∷ es) =
    let page' = page ++ e ∷ [] in
    let more = fill_page wanted limit page' es in
    let skip = fill_page wanted limit page es in
    if wanted e then (if eqb (length page') limit then page' else more) else skip

unfoldable pub read_page : List Entry → String → String → ℤ → ℤ → List Entry
unfolding on_page fill_page
read_page entries session unit after limit =
    fill_page (on_page session unit after) (page_limit limit) [] entries
