-- ===== src/Gc/Plan.antt =====
-- takt/gc/plan.go: the session's delta and the declaration of a maintenance cycle. `Reach` is the code
-- graph, an argument: what it answers for a path, or its error; `none` where there is no graph.
pub mod Closure
use takt_ai.Base.{
  ◌+◌, String, ◌⊎◌, inl, inr, Bool, true, false, not, ◌&&◌, ◌||◌, Option, none, some, List, [], ◌∷◌,
  ◌++◌, map, ◌==◌, if◌then◌else◌,
}
use takt_ai.Base.Dict.{Dict, get_or, lookup, insert, remove}
use takt_ai.Base.Text.{codes, leq_codes}
use takt_ai.Base.Sorted.{sorted_keys}

-- OperationType of takt/vfs/vfs.go.
pub data Operation : Type 0 where
  read create patch delete flush rollback verdict recovery : Operation
  other : String → Operation

-- What a delta reads of an entry of the workspace journal.
pub record DeltaEntry : Type 0 where
  pub path : String
  pub operation : Operation
  pub before_hash : String
  pub after_hash : String
  pub outcome : String
  pub cycle : String
  pub session : String

pub record Change : Type 0 where
  pub path : String
  pub introduced : Bool
  pub deleted : Bool

abbrev pub no_change : Change
no_change = record { path = ""; introduced = false; deleted = false }

-- sessionEntry
abbrev pub session_entry : String → DeltaEntry → Bool
session_entry session e =
    not (e.path == "")
    && e.outcome == ""
    && e.cycle == ""
    && (e.session == "" || e.session == session)

-- merge
abbrev pub merge : Change → Change → Change
merge prev next = record next { introduced = next.introduced || prev.introduced }

abbrev pub put_change : DeltaEntry → Change → Dict Change → Dict Change
put_change e c m = insert e.path (merge (get_or no_change (lookup e.path m)) c) m

abbrev pub is_create : Operation → Bool
is_create Operation.create = true
is_create _ = false

abbrev pub is_delete : Operation → Bool
is_delete Operation.delete = true
is_delete _ = false

abbrev pub stage : DeltaEntry → Dict Change × Dict Change → Dict Change × Dict Change
stage e (staged, flushed) = (
  put_change e
      (record {
        path = e.path;
        introduced = is_create e.operation && e.before_hash == "";
        deleted = is_delete e.operation;
      })
      staged,
  flushed,
)

-- applyJournalEntry, on the staged and the flushed changes.
unfoldable pub apply_entry :
    Operation → DeltaEntry → Dict Change × Dict Change → Dict Change × Dict Change
apply_entry Operation.create e s = stage e s
apply_entry Operation.patch e s = stage e s
apply_entry Operation.delete e s = stage e s
apply_entry Operation.rollback e (staged, flushed) = (remove e.path staged, flushed)
apply_entry Operation.flush e (staged, flushed) = (
  remove e.path staged,
  put_change e
      (record {
        path = e.path;
        introduced = e.before_hash == "" && not (e.after_hash == "");
        deleted = e.after_hash == "";
      })
      flushed,
)
apply_entry _ e s = s

-- The loop of SessionDelta.
unfoldable pub scan_entries :
    String → List DeltaEntry → Dict Change × Dict Change → Dict Change × Dict Change
unfolding apply_entry
scan_entries session [] s = s
scan_entries session (e ∷ es) s =
    scan_entries session es (if session_entry session e then apply_entry e.operation e s else s)

-- mergeAll
unfoldable pub merge_all : Dict Change → Dict Change → Dict Change
merge_all flushed [] = flushed
merge_all flushed ((p, c) ∷ staged) =
    merge_all (insert p (merge (get_or no_change (lookup p flushed)) c) flushed) staged

unfoldable pub put_by_path : Change → List Change → List Change
unfolding leq_codes
put_by_path c [] = c ∷ []
put_by_path c (d ∷ ds) =
    let rest = put_by_path c ds in
    if leq_codes (codes c.path) (codes d.path) then c ∷ d ∷ ds else d ∷ rest

-- The filter and the sort of SessionDelta.
unfoldable pub lasting : Dict Change → List Change
unfolding put_by_path
lasting [] = []
lasting ((p, c) ∷ m) =
    let rest = lasting m in if not c.introduced || not c.deleted then put_by_path c rest else rest

-- SessionDelta
unfoldable pub session_delta : List DeltaEntry → String → List Change
unfolding scan_entries merge_all lasting
session_delta es session = let s = scan_entries session es ([], []) in lasting (merge_all s.1 s.0)

pub data MandateClass : Type 0 where
  dead_code complexity duplication documentation analyzer_integrity : MandateClass
  other : String → MandateClass

abbrev pub is_known_mandate : MandateClass → Bool
is_known_mandate (MandateClass.other m) = false
is_known_mandate _ = true

pub record CycleRequest : Type 0 where
  pub session : String
  pub cycle : String
  pub mandate : MandateClass

-- What the code graph answers for one path.
pub data Reached : Type 0 where
  found : List String → Reached
  unreachable : String → Reached

pub data Reachability : Type 0 where
  codegraph journal_only : Reachability

pub record CyclePlan : Type 0 where
  pub request : CycleRequest
  pub delta : List Change
  pub closure : List String
  pub reachability : Reachability
  pub gap : String

pub data PlanRefusal : Type 0 where
  unidentified_cycle : PlanRefusal
  unknown_mandate : MandateClass → PlanRefusal

abbrev pub gathered : Reached → Reached → Reached
gathered (unreachable e) rest = unreachable e
gathered (found ps) (unreachable e) = unreachable e
gathered (found ps) (found qs) = found (ps ++ qs)

-- dependents
unfoldable pub dependents : (String → Reached) → List Change → Reached
dependents reach [] = found []
dependents reach (c ∷ cs) = gathered (reach c.path) (dependents reach cs)

abbrev pub reach_all : Option (String → Reached) → List Change → Reached
reach_all none cs = unreachable "no code graph available"
reach_all (some reach) cs = dependents reach cs

abbrev pub paths_of : Reached → List String
paths_of (found ps) = ps
paths_of (unreachable e) = []

abbrev pub label_of : Reached → Reachability × String
label_of (found ps) = (Reachability.codegraph, "")
label_of (unreachable e) = (Reachability.journal_only, e)

-- The loops that fill the set of the closure.
unfoldable pub add_paths : List String → Dict Bool → Dict Bool
add_paths [] set = set
add_paths (p ∷ ps) set = add_paths ps (insert p true set)

-- Declare
unfoldable pub declare_cycle :
    List DeltaEntry → CycleRequest → Option (String → Reached) → PlanRefusal ⊎ CyclePlan
unfolding session_delta dependents add_paths sorted_keys
declare_cycle es req reach =
    let delta = session_delta es req.session in
    let reached = reach_all reach delta in
    if req.session == "" || req.cycle == ""
    then inl PlanRefusal.unidentified_cycle
    else if not (is_known_mandate req.mandate)
    then inl (PlanRefusal.unknown_mandate req.mandate)
    else inr (record {
      request = req;
      delta = delta;
      closure =
          sorted_keys
            (add_paths (paths_of reached) (add_paths (map (λ (c : Change). c.path) delta) []));
      reachability = (label_of reached).0;
      gap = (label_of reached).1;
    })
