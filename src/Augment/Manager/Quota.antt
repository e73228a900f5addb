-- ===== src/Augment/Manager/Quota.antt =====
-- After a task that exceeded the quota nothing is scheduled any more.
use memori.Prelude.{ℕ, ◌≡◌, refl, ◌∙◌, Option, none, some, List, [], ◌∷◌, All, arith}
use memori.Exec.{quota, Result, err}
use memori.Augment.Manager.{
  Manager, Event, started, enqueued, finished, runtime_ready, handle_augmentation_result, step, run,
}

abbrev HasRaised : Option (Result (Unit {0})) → Type 0
HasRaised none = Unit
HasRaised (some r) = r ≡ err quota

-- What stays of a manager whose quota is used up.
abbrev Stays : Manager → Option (Result (Unit {0})) × Manager → Type 0
Stays m (r, m') = (m'.quota_error ≡ some quota) × (m'.scheduled ≡ m.scheduled) × HasRaised r

step-Stays : (e : Event) (m : Manager) → m.quota_error ≡ some quota → Stays m (step e m)
unfolding step
step-Stays (started none) m h = (h, refl, tt)
step-Stays (started (some conn)) m h = (h, refl, tt)
step-Stays enqueued m h = ground arith
step-Stays (finished future result) m h = ground arith
step-Stays runtime_ready m h = (h, refl, tt)

run-Stays :
    (events : List Event) (m : Manager)
    → m.quota_error ≡ some quota
    → let (answers, m') = run events m in
      (m'.quota_error ≡ some quota)
      × (m'.scheduled ≡ m.scheduled)
      × All (λ r. r ≡ err quota) answers
unfolding run
run-Stays [] m h = (h, refl, tt)
run-Stays (e ∷ events) m h = go (step e m) (step-Stays e m h) (run-Stays events (step e m).1)
  where
    go :
        (r : Option (Result (Unit {0})) × Manager)
        → Stays m r
        → (r.1.quota_error ≡ some quota
            → let (answers, m') = run events r.1 in
              (m'.quota_error ≡ some quota)
              × (m'.scheduled ≡ r.1.scheduled)
              × All (λ a. a ≡ err quota) answers)
        → let (answers, m'') = run events r.1 in
          (m''.quota_error ≡ some quota)
          × (m''.scheduled ≡ m.scheduled)
          × All
              (λ a. a ≡ err quota)
              (elim r.0 as (λ _. List (Result (Unit {0}))) [
                | none ↦ answers
                | some a ↦ a ∷ answers
              ])
    go (none, m') stays rest = let w = rest stays.0 in (w.0, w.1 ∙ stays.1, w.2)
    go (some a, m') stays rest = let w = rest stays.0 in (w.0, w.1 ∙ stays.1, (stays.2, w.2))

-- Once the result of any task is that the quota is exceeded, then whatever is started, enqueued and
-- finished afterwards, every `enqueue` raises that error and no task is scheduled any more.
pub quota_sticks :
    (future : ℕ) (events : List Event) (m : Manager)
    → let m' = handle_augmentation_result future (err quota) m in
      let (answers, m'') = run events m' in
      (m''.scheduled ≡ m.scheduled) × All (λ r. r ≡ err quota) answers
unfolding handle_augmentation_result
quota_sticks future events m =
    let w = run-Stays events (handle_augmentation_result future (err quota) m) refl in (w.1, w.2)
