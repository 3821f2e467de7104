-- ===== src/History/Log/Interface.antt =====
-- What package dispatch uses of the store: the recorded entries and an append of a batch, with the
-- laws of `AppendBatch`. `store_log` fills it by the store of takt/history/history.go.
use takt_ai.Base.{◌≡◌, Bool, Option, none, some, List, ◌++◌, length}
use takt_ai.History.Entry.{Entry}
use takt_ai.History.Log.Defs.{AppendError, Codec, number, History, append_batch}
use takt_ai.History.Log.Durable.{AllValid, Batched, append_batch_lem}

pub record Log : Type 1 where
  pub Handle : Type 0
  pub entries : Handle → List Entry
  pub append_batch : Handle → List Entry → Option AppendError × Handle
  pub refused :
      (h : Handle) (es : List Entry) (x : AppendError)
      → (append_batch h es).0 ≡ some x
      → (append_batch h es).1 ≡ h
  pub appended :
      (h : Handle) (es : List Entry)
      → (append_batch h es).0 ≡ none
      → entries (append_batch h es).1 ≡ entries h ++ number (length (entries h)) es
  pub valid :
      (h : Handle) (es : List Entry)
      → (append_batch h es).0 ≡ none
      → AllValid (number (length (entries h)) es)

module _ (c : Codec) (commits : History c → List Entry → Bool) where
  pub batch_refused :
      (h : History c) (es : List Entry) (r : Option AppendError × History c) (x : AppendError)
      → Batched c h es r
      → r.0 ≡ some x
      → r.1 ≡ h
  batch_refused h es (some y, h') x b e = b
  batch_refused h es (none, h') x b e = cc

  pub batch_appended :
      (h : History c) (es : List Entry) (r : Option AppendError × History c)
      → Batched c h es r
      → r.0 ≡ none
      → (r.1.entries ≡ h.entries ++ number (length h.entries) es)
        × AllValid (number (length h.entries) es)
  batch_appended h es (some y, h') b e = cc
  batch_appended h es (none, h') b e = b

  abbrev pub store_log : Log
  store_log = record {
    Handle = History c;
    entries = λ h. h.entries;
    append_batch = λ h es. append_batch c (commits h es) h es;
    refused = λ h es x. batch_refused h es _ x (append_batch_lem c (commits h es) h es);
    appended = λ h es e. (batch_appended h es _ (append_batch_lem c (commits h es) h es) e).0;
    valid = λ h es e. (batch_appended h es _ (append_batch_lem c (commits h es) h es) e).1;
  }
