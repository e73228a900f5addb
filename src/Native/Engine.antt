-- ===== src/Native/Engine.antt =====
-- class RustCoreAdapter of memori/native/_adapter.py: the engine that all threads share. It is made
-- on first use, under a lock that is tried only if a first look finds neither an engine nor the
-- error of an earlier try (`_active_engine`). The engine itself is third-party: an engine and an
-- error are known by numbers, and how a creation ends is given.
pub mod Once
pub mod Shared
pub mod Ends
use memori.Prelude.{ℕ, suc, ◌≡◌, ◌≢◌, Bool, Option, none, some, ◌==◌, if◌then◌else◌}

-- How an access ended: the engine, or the error that it raised.
pub data Outcome : Type 0 where
  returned raised : ℕ → Outcome

-- Where a thread is in `_active_engine`: before line 91; after it, where the engine was missing;
-- before line 96, where the error was missing too; in the locked block; in `_create_engine`; done.
pub data Place : Type 0 where
  start no_engine no_error locked creating : Place
  done : Outcome → Place

-- The fields of the adapter, the thread that holds the lock, where each thread is, and how often
-- `_create_engine` has been entered.
pub record Adapter : Type 0 where
  pub engine : Option ℕ
  pub engine_error : Option ℕ
  pub lock : Option ℕ
  pub place : ℕ → Place
  pub creations : ℕ

-- A thread moves on.
abbrev pub at : (ℕ → Place) → ℕ → Place → ℕ → Place
at place t p u = if u == t then p else place u

-- A step of one thread. Each reads or writes one field, but for the looks in the locked block, where
-- no other thread writes.
pub data Step (s : Adapter) : Adapter → Type 0 where
  look_engine :
      (t i : ℕ)
      → s.place t ≡ start
      → s.engine ≡ some i
      → Step s (record s { place = at s.place t (done (returned i)) })
  miss_engine :
      (t : ℕ)
      → s.place t ≡ start
      → s.engine ≡ none
      → Step s (record s { place = at s.place t no_engine })
  look_error :
      (t e : ℕ)
      → s.place t ≡ no_engine
      → s.engine_error ≡ some e
      → Step s (record s { place = at s.place t (done (raised e)) })
  miss_error :
      (t : ℕ)
      → s.place t ≡ no_engine
      → s.engine_error ≡ none
      → Step s (record s { place = at s.place t no_error })
  acquire :
      (t : ℕ)
      → s.place t ≡ no_error
      → s.lock ≡ none
      → Step s (record s { place = at s.place t locked; lock = some t })
  find_engine :
      (t i : ℕ)
      → s.place t ≡ locked
      → s.engine ≡ some i
      → Step s (record s { place = at s.place t (done (returned i)); lock = none })
  find_error :
      (t e : ℕ)
      → s.place t ≡ locked
      → s.engine ≡ none
      → s.engine_error ≡ some e
      → Step s (record s { place = at s.place t (done (raised e)); lock = none })
  enter_create :
      (t : ℕ)
      → s.place t ≡ locked
      → s.engine ≡ none
      → s.engine_error ≡ none
      → Step s (record s { place = at s.place t creating; creations = suc s.creations })
  create_engine :
      (t i : ℕ)
      → s.place t ≡ creating
      → Step s (record s { place = at s.place t (done (returned i)); lock = none; engine = some i })
  create_fails :
      (t e : ℕ)
      → s.place t ≡ creating
      → Step s
          (record s { place = at s.place t (done (raised e)); lock = none; engine_error = some e })

-- A new adapter, whose property any threads may be about to read.
abbrev pub new_adapter : Adapter
new_adapter = record {
  engine = none;
  engine_error = none;
  lock = none;
  place = λ t. start;
  creations = 0;
}

pub data Reach : Adapter → Type 0 where
  here : Reach new_adapter
  next : {s s' : Adapter} → Reach s → Step s s' → Reach s'
