-- ===== src/Concurrency.antt =====
-- The limiter of concurrent reads (precis_mcp/concurrency.py). Tasks run interleaved, so a move of one
-- task at a time changes the state; `asyncio.Semaphore` and `asyncio.wait_for` are Python's: a permit is
-- taken when one is free, and a wait ends with the permit or with a timeout.
pub mod Slots
use precis_mcp.Common.{
  length, get_elem?, take, drop, replicate, All, filterb, length-append, contains, Text, codes,
  text_beq, text_beq_iff, text_eq, string_eq, nat_eq, ◌==◌, beq_refl, Eq, ltb, leb, nat_beq,
  if◌then◌else◌, ltb→lt, leb→le, le→leb, nat_beq_iff, Bool-cases, Option-cases, ℕ, zero, suc, ◌+◌,
  ◌-◌, ◌*◌, ◌/◌, ◌%◌, ◌≤◌, ◌<◌, min, String, ◌≡◌, refl, sym, ap, subst, ◌∙◌, fun_ext, ◌≢◌, ◌↔◌, ◌⊎◌,
  inl, inr, Bool, true, false, not, ◌&&◌, ◌||◌, Option, none, some, List, [], ◌∷◌, ◌++◌, map,
  append_assoc, append-nil, arith,
}

-- Where a task stands in `acquire`.
pub data Phase : Type 0 where
  -- waits for the slot of its user
  waits_user : Phase
  -- has that, and waits for a global slot
  waits_global : Phase
  -- runs the body
  holds : Phase
  -- `TooBusy` was raised
  too_busy : Phase
  -- the body has ended, normally or not
  done : Phase

pub record Task : Type 0 where
  pub user : Text
  pub phase : Phase

-- `ReadConcurrencyLimiter`: the free permits of each user's semaphore and of the global one, with the
-- tasks that have called `acquire`.
pub record Limiter : Type 0 where
  pub free_user : Text → ℕ
  pub free_global : ℕ
  pub tasks : List Task

pub data Event : Type 0 where
  -- a call of `acquire` by a user
  enters : Text → Event
  -- the wait of the task with this index ends with the permit
  granted : ℕ → Event
  timed_out : ℕ → Event
  -- the body of the task ends
  ends : ℕ → Event

abbrev pub taken : Text → (Text → ℕ) → Text → ℕ
taken u f v = if v == u then f v - 1 else f v

abbrev pub given : Text → (Text → ℕ) → Text → ℕ
given u f v = if v == u then suc (f v) else f v

-- What an event does to the phase of its task and to the free permits; `none` when it cannot happen.
abbrev pub grant_user : ℕ → Text → (Text → ℕ) → ℕ → Option (Phase × ((Text → ℕ) × ℕ))
grant_user zero u f g = none
grant_user (suc n) u f g = some (waits_global, (taken u f, g))

unfoldable pub grant : Text → Phase → (Text → ℕ) → ℕ → Option (Phase × ((Text → ℕ) × ℕ))
grant u waits_user f g = grant_user (f u) u f g
grant u waits_global f zero = none
grant u waits_global f (suc g) = some (holds, (f, g))
grant u holds f g = none
grant u too_busy f g = none
grant u done f g = none

-- The `finally` of `acquire` gives back what the task had got; a wait that is cancelled ends so, too.
unfoldable pub time_out : Text → Phase → (Text → ℕ) → ℕ → Option (Phase × ((Text → ℕ) × ℕ))
time_out u waits_user f g = some (too_busy, (f, g))
time_out u waits_global f g = some (too_busy, (given u f, g))
time_out u holds f g = none
time_out u too_busy f g = none
time_out u done f g = none

unfoldable pub end_body : Text → Phase → (Text → ℕ) → ℕ → Option (Phase × ((Text → ℕ) × ℕ))
end_body u holds f g = some (done, (given u f, suc g))
end_body u waits_user f g = none
end_body u waits_global f g = none
end_body u too_busy f g = none
end_body u done f g = none

abbrev pub Change : Type 0
Change = Text → Phase → (Text → ℕ) → ℕ → Option (Phase × ((Text → ℕ) × ℕ))

abbrev pub changed : Task → List Task → Option (Phase × ((Text → ℕ) × ℕ)) → Option Limiter
changed t ts none = none
changed t ts (some (phase, (f, g))) = some (record {
  free_user = f;
  free_global = g;
  tasks = (record { user = t.user; phase = phase }) ∷ ts;
})

abbrev pub put_back : Task → Option Limiter → Option Limiter
put_back t none = none
put_back t (some s) = some (record s { tasks = t ∷ s.tasks })

-- The change of the task with this index.
unfoldable pub change_at : Change → ℕ → List Task → (Text → ℕ) → ℕ → Option Limiter
change_at change i [] f g = none
change_at change zero (t ∷ ts) f g = changed t ts (change t.user t.phase f g)
change_at change (suc i) (t ∷ ts) f g = put_back t (change_at change i ts f g)

unfoldable pub move : Event → Limiter → Option Limiter
move (enters u) s = some (record s { tasks = (record { user = u; phase = waits_user }) ∷ s.tasks })
move (granted i) s = change_at grant i s.tasks s.free_user s.free_global
move (timed_out i) s = change_at time_out i s.tasks s.free_user s.free_global
move (ends i) s = change_at end_body i s.tasks s.free_user s.free_global

-- The caps of the environment; each semaphore, made at its first use, begins with its cap.
abbrev pub fresh : ℕ → ℕ → Limiter
fresh per_user global = record { free_user = λ u. per_user; free_global = global; tasks = [] }

pub data Reachable (per_user global : ℕ) : Limiter → Type 0 where
  begins : Reachable per_user global (fresh per_user global)
  moves :
      (s s' : Limiter) (e : Event)
      → Reachable per_user global s
      → move e s ≡ some s'
      → Reachable per_user global s'
