-- ===== src/Dispatch/Interlocutor/Index.antt =====
-- The memory index of a lent session in takt/dispatch/interlocutor.go, with EntryIDsByCaller of
-- takt/memory/session_index.go.
use takt_ai.Base.{
  ◌||◌, ℕ, zero, suc, String, Bool, true, false, not, ◌&&◌, Option, none, some, List, [], ◌∷◌, ltb,
  eqb, ◌==◌, if◌then◌else◌, length, any, contains,
}
use takt_ai.History.Kinds.{Kind}
use takt_ai.History.Entry.{Entry}
use takt_ai.Dispatch.Policy.{AdmissionPolicy}
use takt_ai.Dispatch.Interlocutor.{TurnFault}

pub record SessionEntry : Type 0 where
  pub id : ℕ
  pub caller : String
  pub callers : List String

-- sessionIndexEntry.recordedBy
abbrev pub recorded_by : String → SessionEntry → Bool
recorded_by caller e = e.caller == caller || contains e.callers caller

-- EntryIDsByCaller, on the entries of the session's index.
unfoldable pub entry_ids_by_caller : List SessionEntry → String → List ℕ
entry_ids_by_caller [] caller = []
entry_ids_by_caller (e ∷ es) caller =
    let rest = entry_ids_by_caller es caller in
    if not (caller == "") && recorded_by caller e then e.id ∷ rest else rest

-- `next_after` is 0 where the index is complete.
pub record MemoryIndex : Type 0 where
  pub listed : List ℕ
  pub next_after : ℕ

-- `ids[slices.Index(ids, after)+1:]`, or `none` where the entry is not there.
unfoldable pub drop_through : ℕ → List ℕ → Option (List ℕ)
drop_through after [] = none
drop_through after (id ∷ ids) =
    let rest = drop_through after ids in if eqb id after then some ids else rest

abbrev pub take : ℕ → List ℕ → List ℕ
take zero ids = []
take (suc n) [] = []
take (suc n) (id ∷ ids) = id ∷ take n ids

-- The last of a list, which the page is long enough to have.
abbrev pub last : ℕ → List ℕ → ℕ
last d [] = d
last d (id ∷ ids) = last id ids

abbrev pub page_of : ℕ → List ℕ → MemoryIndex
page_of page ids =
    if ltb page (length ids)
    then record { listed = take page ids; next_after = last 0 (take page ids) }
    else record { listed = ids; next_after = 0 }

-- lentIndex: a page of the entries, or the fault.
unfoldable pub lent_index :
    Option AdmissionPolicy
    → Option (List SessionEntry)
    → String
    → ℕ
    → MemoryIndex × Option TurnFault
unfolding entry_ids_by_caller drop_through
lent_index none index child after =
    (record { listed = []; next_after = 0 }, some TurnFault.no_policy)
lent_index (some p) none child after =
    (record { listed = []; next_after = 0 }, some TurnFault.no_index)
lent_index (some p) (some es) child after =
    let ids = entry_ids_by_caller es child in
    if eqb after 0 then (page_of p.memory_page ids, none) else elim (drop_through after ids) [
      | none ↦ (record { listed = []; next_after = 0 }, some (TurnFault.unknown_entry after))
      | some rest ↦ (page_of p.memory_page rest, none)
    ]

abbrev pub is_kind_switched : Kind → Bool
is_kind_switched Kind.interlocutor_switched = true
is_kind_switched _ = false

-- LentEntries
unfoldable pub lent_entries :
    List Entry
    → Option AdmissionPolicy
    → Option (List SessionEntry)
    → String
    → String
    → ℕ
    → MemoryIndex × Option TurnFault
unfolding lent_index
lent_entries es policy index root child after =
    if any (λ (e : Entry). is_kind_switched e.kind && e.session == root && e.work_unit == child) es
    then lent_index policy index child after
    else (record { listed = []; next_after = 0 }, some (TurnFault.never_lent child root))
