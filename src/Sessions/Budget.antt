-- ===== src/Sessions/Budget.antt =====
-- The tasks that a peer's temporary sessions of bin/atel.mjs still allow.
use atel_sdk.Base.{
  ℕ, ◌+◌, ◌-◌, ◌≤◌, ◌<◌, String, ◌≡◌, refl, ◌∙◌, Bool, false, some, List, [], ◌∷◌, find, filter,
  some_of, arith, ◌==◌, eq_iff, eq_refl, if◌then◌else◌, Bool-cases, inl, inr, if-elim,
}
use atel_sdk.Sessions.{TempSession, count_task}

-- How many tasks the sessions of a DID still allow, in all.
abbrev pub tasks_left : String → List TempSession → ℕ
tasks_left did [] = 0
tasks_left did (s ∷ sessions) =
    if s.did == did
    then s.max_tasks - s.task_count + tasks_left did sessions
    else tasks_left did sessions

-- No two sessions have the same identifier.
abbrev pub IsDistinct : List TempSession → Type 0
IsDistinct [] = Unit
IsDistinct (s ∷ sessions) =
    (some_of (λ x. x.session_id == s.session_id) sessions ≡ false) × IsDistinct sessions

find-apart :
    (p q : TempSession → Bool) (sessions : List TempSession) (s : TempSession)
    → find p sessions ≡ some s
    → some_of q sessions ≡ false
    → q s ≡ false
find-apart p q [] s h k = ground arith
find-apart p q (x ∷ sessions) s h k = ground (arith, find-apart p q sessions s)

some_of-count_task :
    (now : ℕ) (id j : String) (sessions : List TempSession)
    → some_of (λ x. x.session_id == j) (count_task now id sessions)
      ≡ some_of (λ x. x.session_id == j) sessions
unfolding count_task
some_of-count_task now id j [] = refl
some_of-count_task now id j (x ∷ sessions) = ground (arith, some_of-count_task now id j sessions)

pub count_task-IsDistinct :
    (now : ℕ) (id : String) (sessions : List TempSession)
    → IsDistinct sessions
    → IsDistinct (count_task now id sessions)
unfolding count_task
count_task-IsDistinct now id [] h = tt
count_task-IsDistinct now id (x ∷ sessions) h =
    let counted : IsDistinct
        (record x { task_count = x.task_count + 1; last_used_at = some now } ∷ sessions) =
      (h.0, h.1) in
    let rest : IsDistinct (x ∷ count_task now id sessions) = (
      some_of-count_task now id x.session_id sessions ∙ h.0,
      count_task-IsDistinct now id sessions h.1,
    ) in
    if-elim IsDistinct (x.session_id == id) counted rest

-- Counting a task gives nobody more tasks.
pub tasks_left-count_task-le :
    (now : ℕ) (did id : String) (sessions : List TempSession)
    → tasks_left did (count_task now id sessions) ≤ tasks_left did sessions
unfolding count_task
tasks_left-count_task-le now did id [] = omega arith
tasks_left-count_task-le now did id (x ∷ sessions) =
    ground (arith, tasks_left-count_task-le now did id sessions)

-- Counting a task of a session that has one left takes one from its DID's.
pub tasks_left-count_task :
    (p : TempSession → Bool) (now : ℕ) (did : String) (sessions : List TempSession)
    (s : TempSession)
    → IsDistinct sessions
    → find p sessions ≡ some s
    → s.did ≡ did
    → s.task_count < s.max_tasks
    → tasks_left did (count_task now s.session_id sessions) + 1 ≡ tasks_left did sessions
unfolding count_task
tasks_left-count_task p now did [] s d h k l = ground arith
tasks_left-count_task p now did (x ∷ sessions) s d h k l = elim (Bool-cases (p x)) [
  | inl here ↦
      ground (arith, eq_refl x.session_id, eq_iff x.did did, eq_iff x.session_id s.session_id)
  | inr later ↦ ground (
    arith,
    eq_iff x.session_id s.session_id,
    eq_iff s.session_id x.session_id,
    find-apart p (λ y. y.session_id == x.session_id) sessions s,
    tasks_left-count_task p now did sessions s d.1,
  )
]

pub tasks_left-filter :
    (q : TempSession → Bool) (did : String) (sessions : List TempSession)
    → tasks_left did (filter q sessions) ≤ tasks_left did sessions
tasks_left-filter q did [] = omega arith
tasks_left-filter q did (x ∷ sessions) = ground (arith, tasks_left-filter q did sessions)

some_of-filter {ℓ} :
    {A : Type ℓ} (p q : A → Bool) (xs : List A)
    → some_of p xs ≡ false
    → some_of p (filter q xs) ≡ false
some_of-filter p q [] h = refl
some_of-filter p q (x ∷ xs) h = ground (arith, some_of-filter p q xs)

pub filter-IsDistinct :
    (q : TempSession → Bool) (sessions : List TempSession)
    → IsDistinct sessions
    → IsDistinct (filter q sessions)
filter-IsDistinct q [] h = tt
filter-IsDistinct q (x ∷ sessions) h =
    if-elim IsDistinct (q x)
      (
        some_of-filter (λ y. y.session_id == x.session_id) q sessions h.0,
        filter-IsDistinct q sessions h.1,
      )
      (filter-IsDistinct q sessions h.1)

-- A session that is found is also found by its identifier, or another with the same identifier is.
pub found_by_id :
    (p : TempSession → Bool) (sessions : List TempSession) (s : TempSession)
    → find p sessions ≡ some s
    → (x : TempSession) × (find (λ y. y.session_id == s.session_id) sessions ≡ some x)
found_by_id p [] s h = ground arith
found_by_id p (y ∷ sessions) s h = elim (Bool-cases (y.session_id == s.session_id)) [
  | inl here ↦ (y, rw here)
  | inr other ↦
      let (x, e) = found_by_id p sessions s (ground (arith, eq_iff y.session_id s.session_id)) in
      (x, rw other e)
]
