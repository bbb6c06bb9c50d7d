-- ===== src/Vault/Commit/Once.antt =====
-- What a reuse that `_commit_reuse` (prescreener_vault/reuse.py) lets through has passed, and what
-- it keeps from happening again.
use native.Mathlib.Nat.{le_trans}
use quant_tool.Base.{
  Bool-cases, ℕ, ◌+◌, ◌≤◌, ◌≡◌, refl, ◌⊎◌, inl, inr, Bool, true, false, some, List, [], ◌∷◌, arith,
  leb, ◌==◌, ==_refl, is_some, Option-cases,
}
use quant_tool.Base.Result.{Result, ok, err, ◌>>◌, raise_if, is_ok, Result-cases}
use quant_tool.Base.Table.{lookup}
use quant_tool.Base.Lists.{length, any, select}
use quant_tool.Vault.Models.{
  Integration, Submission, Attempt, Usage, Event, State, Pool, Signature, Db,
}
use quant_tool.Vault.Commit.{
  Conflict, is_other_use, is_usage, recent_events, locked_state, in_interval, minutes, commit_gates,
  new_event, new_usage, committed, commit_reuse,
}

-- What a reuse of a UID asks of the tables, over the row of the attempt and that of the UID.
unfoldable pub MayReuse : ℕ → Integration → ℕ → Attempt → Attempt → ℕ → State → Db → Type 0
MayReuse now integration attempt_id attempt locked uid state db =
    (is_some locked.provider_profile_uid ≡ false)
    × (in_interval state.last_reused_at (minutes integration.profile_reuse_min_interval_minutes) now
        ≡ false)
    × (any (is_other_use attempt.survey_id attempt_id uid) db.attempts ≡ false)
    × (any (is_usage integration.pk attempt.survey_id uid) db.usages ≡ false)
    × (leb integration.profile_reuse_max_uses_per_window (
          length (
            recent_events integration.pk uid (minutes integration.profile_reuse_window_minutes) now
              db.events))
        ≡ false)
    × (any (λ e. e.attempt_id == attempt_id) db.events ≡ false)

length-select_one :
    (p : Event → Bool) (e : Event) (es : List Event)
    → length (select p (e ∷ es)) ≤ length (select p es) + 1
length-select_one p e es = elim (Bool-cases (p e)) [
  | inl kept ↦ rw kept (omega arith)
  | inr dropped ↦ rw dropped (omega arith)
]

leb-false_lt : (a b : ℕ) → leb a b ≡ false → b + 1 ≤ a
leb-false_lt a b h = ground arith

raise_if_ok :
    (b : Bool) (e : Conflict) {A : Type 0} (m : Result Conflict A) {a : A}
    → (raise_if b e >> m) ≡ ok a
    → (b ≡ false) × (m ≡ ok a)
raise_if_ok true e m h = cc
raise_if_ok false e m h = (refl, h)

raise_if_last : (b : Bool) (e : Conflict) {u : Unit {0}} → raise_if b e ≡ ok u → b ≡ false
raise_if_last true e h = cc
raise_if_last false e h = refl

gates_need :
    (now : ℕ) (integration : Integration) (attempt_id : ℕ) (attempt locked : Attempt) (uid : ℕ)
    (state : State) (db : Db) {u : Unit {0}}
    → commit_gates now integration attempt_id attempt locked uid state db ≡ ok u
    → MayReuse now integration attempt_id attempt locked uid state db
unfolding commit_gates MayReuse
gates_need now integration attempt_id attempt locked uid state db h =
    let (a, h1) = raise_if_ok _ _ _ h in
    let (b, h2) = raise_if_ok _ _ _ h1 in
    let (c, h3) = raise_if_ok _ _ _ h2 in
    let (d, h4) = raise_if_ok _ _ _ h3 in
    let (e, h5) = raise_if_ok _ _ _ h4 in (a, b, c, d, e, raise_if_last _ _ h5)

gates_let :
    (now : ℕ) (integration : Integration) (attempt_id : ℕ) (attempt locked : Attempt) (uid : ℕ)
    (state : State) (db : Db)
    → MayReuse now integration attempt_id attempt locked uid state db
    → commit_gates now integration attempt_id attempt locked uid state db ≡ ok tt
unfolding commit_gates MayReuse
gates_let now integration attempt_id attempt locked uid state db (a, b, c, d, e, f) =
    rw (a, b, c, d, e, f) refl

module _ (now : ℕ) (integration : Integration) (attempt_id : ℕ) (attempt : Attempt) (uid : ℕ)
    (candidate : Submission) (signature : Signature) (pool : Pool) (db : Db) where
  -- A profile is reused only where the attempt exists, has no profile of its own yet and no event,
  -- the UID's minimum interval is over, no other attempt of the project has it, and it has uses left
  -- in the rolling window; the event then has the frozen values, and the rows are those of the reuse.
  commit_needs :
      {event : Event} {db' : Db}
      → commit_reuse now integration attempt_id attempt uid candidate signature pool db
        ≡ (ok event, db')
      → let (state, states) = locked_state integration.pk uid db.events db.states in
        (locked : Attempt) × (lookup attempt_id db.attempts ≡ some locked)
        × MayReuse now integration attempt_id attempt locked uid state db
        × (event ≡ new_event now integration attempt_id attempt uid candidate signature pool)
        × (db' ≡ committed now integration attempt_id attempt uid event states db)
  unfolding commit_reuse
  commit_needs h = elim (Option-cases (lookup attempt_id db.attempts)) [
    | inl n ↦ ground (arith, n)
    | inr (locked, p) ↦
        let (state, states) = locked_state integration.pk uid db.events db.states in
        elim (Result-cases (commit_gates now integration attempt_id attempt locked uid state db)) [
          | inl (u, q) ↦ (
            locked,
            p,
            gates_need now integration attempt_id attempt locked uid state db q,
            ground (arith, p, q),
            ground (arith, p, q),
          )
          | inr (e, q) ↦ ground (arith, p, q)
        ]
  ]

  -- Where all that holds, the profile is reused.
  pub commit_passes :
      (locked : Attempt)
      → let (state, states) = locked_state integration.pk uid db.events db.states in
        let event = new_event now integration attempt_id attempt uid candidate signature pool in
        lookup attempt_id db.attempts ≡ some locked
        → MayReuse now integration attempt_id attempt locked uid
            (locked_state integration.pk uid db.events db.states).0
            db
        → commit_reuse now integration attempt_id attempt uid candidate signature pool db
          ≡ (ok event, committed now integration attempt_id attempt uid event states db)
  unfolding commit_reuse
  commit_passes locked p m = ground (arith, p, gates_let _ _ _ _ _ _ _ _ m)

  -- A call that raises has changed nothing.
  pub commit_err :
      {e : Conflict} {db' : Db}
      → commit_reuse now integration attempt_id attempt uid candidate signature pool db
        ≡ (err e, db')
      → db' ≡ db
  unfolding commit_reuse
  commit_err h = elim (Option-cases (lookup attempt_id db.attempts)) [
    | inl n ↦ ground (arith, n)
    | inr (locked, p) ↦
        let (state, states) = locked_state integration.pk uid db.events db.states in
        elim (Result-cases (commit_gates now integration attempt_id attempt locked uid state db)) [
          | inl (u, q) ↦ ground (arith, p, q)
          | inr (e, q) ↦ ground (arith, p, q)
        ]
  ]

  -- Right after a reuse the UID has at most as many uses in the rolling window as the policy allows.
  commit_window :
      {event : Event} {db' : Db}
      → commit_reuse now integration attempt_id attempt uid candidate signature pool db
        ≡ (ok event, db')
      → length (
          recent_events integration.pk uid
            (minutes integration.profile_reuse_window_minutes)
            now
            db'.events)
        ≤ integration.profile_reuse_max_uses_per_window
  unfolding MayReuse recent_events committed new_event
  commit_window h =
      let (locked, found, (_, _, _, _, room, _), e, saved) = commit_needs h in
      rw (saved, e) (le_trans (length-select_one _ _ db.events) (leb-false_lt _ _ room))

-- Every profile stands at most once in the list for a project, and an attempt has at most one event.
unfoldable pub IsDistinct : List Usage → Type 0
IsDistinct [] = Unit
IsDistinct (u ∷ us) =
    (any (is_usage u.integration_id u.survey_id u.reused_uid) us ≡ false) × IsDistinct us

unfoldable pub HasOneEvent : List Event → Type 0
HasOneEvent [] = Unit
HasOneEvent (e ∷ es) = (any (λ f. f.attempt_id == e.attempt_id) es ≡ false) × HasOneEvent es

unfoldable pub IsOnce : Db → Type 0
IsOnce db = IsDistinct db.usages × HasOneEvent db.events

result_cases :
    {A : Type 0} (r : Result Conflict A × Db)
    → ((a : A) × (db : Db) × (r ≡ (ok a, db))) ⊎ ((e : Conflict) × (db : Db) × (r ≡ (err e, db)))
result_cases (ok a, db) = inl (a, db, refl)
result_cases (err e, db) = inr (e, db, refl)

-- Whether the call goes through or raises, no profile is listed twice for a project, and no attempt gets a second event.
commit-IsOnce :
    (now : ℕ) (integration : Integration) (attempt_id : ℕ) (attempt : Attempt) (uid : ℕ)
    (candidate : Submission) (signature : Signature) (pool : Pool) (db : Db)
    → IsOnce db
    → IsOnce (commit_reuse now integration attempt_id attempt uid candidate signature pool db).1
unfolding IsOnce IsDistinct HasOneEvent MayReuse committed new_usage new_event
commit-IsOnce now integration attempt_id attempt uid candidate signature pool db (d, o) =
    elim (result_cases
      (commit_reuse now integration attempt_id attempt uid candidate signature pool db)) [
        | inl (event, db', p) ↦
            let (locked, found, (_, _, _, unused, _, fresh), e, saved) =
              commit_needs now integration attempt_id attempt uid candidate signature pool db p in
            rw (p, saved, e) ((unused, d), (fresh, o))
        | inr (e, db', p) ↦
            rw (p, commit_err now integration attempt_id attempt uid candidate signature pool db p)
              (d, o)
      ]

listed :
    (integration : Integration) (attempt_id : ℕ) (attempt attempt' : Attempt) (uid : ℕ)
    (usages : List Usage)
    → attempt'.survey_id ≡ attempt.survey_id
    → any
        (is_usage integration.pk attempt'.survey_id uid)
        (new_usage integration attempt_id attempt uid ∷ usages)
      ≡ true
unfolding is_usage new_usage
listed integration attempt_id attempt attempt' uid usages same =
    rw (same, ==_refl integration.pk, ==_refl attempt.survey_id, ==_refl uid) refl

-- On the tables that the reuse of a profile for a project leaves, every call that would reuse it for
-- that project again, for any attempt and at any time, raises and changes nothing.
pub commit_never_again :
    (now : ℕ) (integration : Integration) (attempt_id : ℕ) (attempt : Attempt) (uid : ℕ)
    (candidate : Submission) (signature : Signature) (pool : Pool) (db : Db) {event : Event}
    {db' : Db} (now' attempt_id' : ℕ) (attempt' : Attempt) (candidate' : Submission)
    (signature' : Signature) (pool' : Pool)
    → commit_reuse now integration attempt_id attempt uid candidate signature pool db
      ≡ (ok event, db')
    → attempt'.survey_id ≡ attempt.survey_id
    → (is_ok
          (commit_reuse now' integration attempt_id' attempt' uid candidate' signature' pool' db').0
        ≡ false)
      × ((commit_reuse now' integration attempt_id' attempt' uid candidate' signature' pool' db').1
          ≡ db')
unfolding MayReuse committed
commit_never_again now integration attempt_id attempt uid candidate signature pool db {event} {db'}
      now' attempt_id' attempt' candidate' signature' pool' h same =
    elim (result_cases
      (commit_reuse now' integration attempt_id' attempt' uid candidate' signature' pool' db')) [
        | inl (event', db'', p) ↦
            let (locked, _, _, _, saved) =
              commit_needs now integration attempt_id attempt uid candidate signature pool db h in
            let (locked', _, (_, _, _, unused, _, _), _, _) =
              commit_needs now' integration attempt_id' attempt' uid candidate' signature' pool' db'
                p in
            ground (
              arith,
              listed integration attempt_id attempt attempt' uid db.usages same,
              rw (saved) at unused,
            )
        | inr (e, db'', p) ↦ rw (p) (
          refl,
          commit_err now' integration attempt_id' attempt' uid candidate' signature' pool' db' p,
        )
      ]
