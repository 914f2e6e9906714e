-- ===== src/Sessions/Cache.antt =====
-- The cache of bin/atel.mjs in one process, against the file.
use atel_sdk.Base.{
  ℕ, String, ◌≡◌, refl, sym, ap, Bool, Option, none, some, List, find, if-elim, subst,
}
use atel_sdk.Sessions.{
  TempSession, SessionStore, SessionOptions, save_temp_sessions, is_active, add_unless,
  add_temp_session, clean_expired_temp_sessions, remove_temp_session, cached,
  get_cached_temp_sessions, get_active_temp_session, save_if, increment_temp_session_task_count,
}

abbrev CacheOf : List TempSession → Option (List TempSession × ℕ) → Type 0
CacheOf file none = Unit
CacheOf file (some (sessions, read_at)) = sessions ≡ file

-- What is cached is what the file holds.
abbrev pub IsCoherent : SessionStore → Type 0
IsCoherent store = CacheOf store.file store.cache

saved-IsCoherent :
    (sessions : List TempSession) (store : SessionStore)
    → IsCoherent (save_temp_sessions sessions store)
unfolding save_temp_sessions
saved-IsCoherent sessions store = tt

cached-IsCoherent :
    (now : ℕ) (store : SessionStore) (cache : Option (List TempSession × ℕ))
    → store.cache ≡ cache
    → CacheOf store.file cache
    → let r = cached now store cache in
      (r.0 ≡ store.file) × (r.1.file ≡ store.file) × IsCoherent r.1
cached-IsCoherent now store none h k = (refl, refl, refl)
cached-IsCoherent now store (some (sessions, read_at)) h k =
    if-elim
      (λ (r : List TempSession × SessionStore).
        (r.0 ≡ store.file) × (r.1.file ≡ store.file) × IsCoherent r.1)
      _ (k, refl, subst (CacheOf store.file) (sym h) k) (refl, refl, refl)

-- What the lookup finds with a coherent cache is what the file has, and the file is untouched.
pub get_active_temp_session-IsCoherent :
    (read_at now : ℕ) (did : String) (store : SessionStore)
    → IsCoherent store
    → let r = get_active_temp_session read_at now did store in
      (r.0 ≡ find (is_active now did) store.file) × (r.1.file ≡ store.file) × IsCoherent r.1
unfolding get_active_temp_session get_cached_temp_sessions
get_active_temp_session-IsCoherent read_at now did store h =
    let (same, kept, coherent) = cached-IsCoherent read_at store store.cache refl h in
    (ap (find (is_active now did)) same, kept, coherent)

add_unless-IsCoherent :
    (o : Option TempSession) (s : TempSession) (store : SessionStore)
    → IsCoherent store
    → IsCoherent (add_unless o s store).1
add_unless-IsCoherent (some existing) s store h = h
add_unless-IsCoherent none s store h = saved-IsCoherent _ store

save_if-IsCoherent :
    (o : Option TempSession) (sessions : List TempSession) (store : SessionStore)
    → IsCoherent store
    → IsCoherent (save_if o sessions store)
save_if-IsCoherent none sessions store h = h
save_if-IsCoherent (some s) sessions store h = saved-IsCoherent sessions store

-- Adding, counting, removing and cleaning sessions keep the cache coherent, since every write drops it.
pub operations-IsCoherent :
    (now : ℕ) (session_id did : String) (options : SessionOptions) (store : SessionStore)
    → IsCoherent store
    → IsCoherent (add_temp_session now session_id did options store).1
      × IsCoherent (increment_temp_session_task_count now session_id store)
      × IsCoherent (remove_temp_session session_id store).1
      × IsCoherent (clean_expired_temp_sessions now store).1
unfolding add_temp_session increment_temp_session_task_count remove_temp_session
    clean_expired_temp_sessions
operations-IsCoherent now session_id did options store h = (
  add_unless-IsCoherent _ _ store h,
  save_if-IsCoherent _ _ store h,
  if-elim (λ (r : Bool × SessionStore). IsCoherent r.1) _ (saved-IsCoherent _ store) h,
  if-elim (λ (r : ℕ × SessionStore). IsCoherent r.1) _ (saved-IsCoherent _ store) h,
)
