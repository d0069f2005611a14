-- ===== src/Concurrency/Slots.antt =====
-- The slots of the limiter of concurrent reads (precis_mcp/concurrency.py).
use precis_mcp.Common.{
  Text, text_beq, text_beq_iff, text_eq, string_eq, nat_eq, ◌==◌, if◌then◌else◌, Bool-cases, ℕ,
  zero, suc, ◌+◌, ◌≡◌, refl, ap, subst, ◌∙◌, inl, inr, Option, none, some, List, [], ◌∷◌, arith,
}
use precis_mcp.Concurrency.{
  Phase, waits_user, waits_global, holds, too_busy, done, Task, Limiter, Event, enters, granted,
  timed_out, ends, taken, given, grant_user, grant, time_out, end_body, Change, changed, put_back,
  change_at, move, Reachable, begins, moves,
}

abbrev pub has_user : Phase → ℕ
has_user waits_user = 0
has_user waits_global = 1
has_user holds = 1
has_user too_busy = 0
has_user done = 0

abbrev pub has_global : Phase → ℕ
has_global holds = 1
has_global waits_user = 0
has_global waits_global = 0
has_global too_busy = 0
has_global done = 0

abbrev pub slots_of : Text → Text → Phase → ℕ
slots_of v u p = if v == u then has_user p else 0

abbrev pub user_slots : Text → List Task → ℕ
user_slots v [] = 0
user_slots v (t ∷ ts) = slots_of v t.user t.phase + user_slots v ts

abbrev pub global_slots : List Task → ℕ
global_slots [] = 0
global_slots (t ∷ ts) = has_global t.phase + global_slots ts

-- A change moves permits between the semaphores and the task.
abbrev Balanced : Text → Phase → (Text → ℕ) → ℕ → Option (Phase × ((Text → ℕ) × ℕ)) → Type 0
Balanced u p f g none = Unit
Balanced u p f g (some (p', (f', g'))) =
    ((v : Text) → f' v + slots_of v u p' ≡ f v + slots_of v u p)
    × (g' + has_global p' ≡ g + has_global p)

take_one :
    (n : ℕ) (u : Text) (f : Text → ℕ) (v : Text)
    → f u ≡ suc n
    → taken u f v + slots_of v u waits_global ≡ f v + slots_of v u waits_user
take_one n u f v e = elim (Bool-cases (text_beq v u)) [
  | inl h ↦ let q : f v ≡ suc n = ap f ((text_beq_iff v u).0 h) ∙ e in rw h (omega (arith, q))
  | inr h ↦ rw h refl
]

give_one :
    (u : Text) (f : Text → ℕ) (v : Text) (p q : Phase)
    → has_user p ≡ 1
    → has_user q ≡ 0
    → given u f v + slots_of v u q ≡ f v + slots_of v u p
give_one u f v p q hp hq = elim (Bool-cases (text_beq v u)) [
  | inl h ↦ rw h (omega (arith, hp, hq))
  | inr h ↦ rw h refl
]

grant_user-Balanced :
    (n : ℕ) (u : Text) (f : Text → ℕ) (g : ℕ)
    → f u ≡ n
    → Balanced u waits_user f g (grant_user n u f g)
grant_user-Balanced zero u f g e = tt
grant_user-Balanced (suc n) u f g e = (λ v. take_one n u f v e, refl)

grant-Balanced : (u : Text) (p : Phase) (f : Text → ℕ) (g : ℕ) → Balanced u p f g (grant u p f g)
unfolding grant
grant-Balanced u waits_user f g = grant_user-Balanced (f u) u f g refl
grant-Balanced u waits_global f zero = tt
grant-Balanced u waits_global f (suc g) = (λ v. refl, omega arith)
grant-Balanced u holds f g = tt
grant-Balanced u too_busy f g = tt
grant-Balanced u done f g = tt

time_out-Balanced :
    (u : Text) (p : Phase) (f : Text → ℕ) (g : ℕ) → Balanced u p f g (time_out u p f g)
unfolding time_out
time_out-Balanced u waits_user f g = (λ v. refl, refl)
time_out-Balanced u waits_global f g = (λ v. give_one u f v waits_global too_busy refl refl, refl)
time_out-Balanced u holds f g = tt
time_out-Balanced u too_busy f g = tt
time_out-Balanced u done f g = tt

end_body-Balanced :
    (u : Text) (p : Phase) (f : Text → ℕ) (g : ℕ) → Balanced u p f g (end_body u p f g)
unfolding end_body
end_body-Balanced u holds f g = (λ v. give_one u f v holds done refl refl, omega arith)
end_body-Balanced u waits_user f g = tt
end_body-Balanced u waits_global f g = tt
end_body-Balanced u too_busy f g = tt
end_body-Balanced u done f g = tt

-- Permits that are free or held are as many as before.
abbrev Conserved : List Task → (Text → ℕ) → ℕ → Option Limiter → Type 0
Conserved ts f g none = Unit
Conserved ts f g (some s) =
    ((v : Text) → s.free_user v + user_slots v s.tasks ≡ f v + user_slots v ts)
    × (s.free_global + global_slots s.tasks ≡ g + global_slots ts)

changed-Conserved :
    (t : Task) (ts : List Task) (f : Text → ℕ) (g : ℕ) (o : Option (Phase × ((Text → ℕ) × ℕ)))
    → Balanced t.user t.phase f g o
    → Conserved (t ∷ ts) f g (changed t ts o)
changed-Conserved t ts f g none h = tt
changed-Conserved t ts f g (some (p, (f', g'))) (h, k) = (λ v. omega (arith, h v), omega (arith, k))

put_back-Conserved :
    (t : Task) (ts : List Task) (f : Text → ℕ) (g : ℕ) (o : Option Limiter)
    → Conserved ts f g o
    → Conserved (t ∷ ts) f g (put_back t o)
put_back-Conserved t ts f g none h = tt
put_back-Conserved t ts f g (some s) (h, k) = (λ v. omega (arith, h v), omega (arith, k))

change_at-Conserved :
    (change : Change)
    → ((u : Text) (p : Phase) (f : Text → ℕ) (g : ℕ) → Balanced u p f g (change u p f g))
    → (i : ℕ) (ts : List Task) (f : Text → ℕ) (g : ℕ) → Conserved ts f g (change_at change i ts f g)
unfolding change_at
change_at-Conserved change fair i [] f g = tt
change_at-Conserved change fair zero (t ∷ ts) f g =
    changed-Conserved t ts f g _ (fair t.user t.phase f g)
change_at-Conserved change fair (suc i) (t ∷ ts) f g =
    put_back-Conserved t ts f g _ (change_at-Conserved change fair i ts f g)

enter_none : (v u : Text) → slots_of v u waits_user ≡ 0
enter_none v u = elim (Bool-cases (text_beq v u)) [ inl h ↦ rw h refl | inr h ↦ rw h refl ]

move-Conserved : (e : Event) (s : Limiter) → Conserved s.tasks s.free_user s.free_global (move e s)
unfolding move
move-Conserved (enters u) s = (λ v. omega (arith, enter_none v u), omega arith)
move-Conserved (granted i) s =
    change_at-Conserved grant grant-Balanced i s.tasks s.free_user s.free_global
move-Conserved (timed_out i) s =
    change_at-Conserved time_out time_out-Balanced i s.tasks s.free_user s.free_global
move-Conserved (ends i) s =
    change_at-Conserved end_body end_body-Balanced i s.tasks s.free_user s.free_global

-- However the tasks interleave, the free permits and the slots that tasks have add up to the caps, for
-- each user and globally: a user never has more slots than the user's cap, no more tasks than the global
-- cap run their body at once, and no permit is lost by a timeout or by the end of a body.
pub Reachable-slots :
    (per_user global : ℕ) (s : Limiter)
    → Reachable per_user global s
    → ((v : Text) → s.free_user v + user_slots v s.tasks ≡ per_user)
      × (s.free_global + global_slots s.tasks ≡ global)
Reachable-slots per_user global s begins = (λ v. omega arith, omega arith)
Reachable-slots per_user global s (moves s0 s1 e before h) =
    let (users, all) = Reachable-slots per_user global s0 before in
    let (each, every) =
      subst (Conserved s0.tasks s0.free_user s0.free_global) h (move-Conserved e s0) in
    (λ v. each v ∙ users v, every ∙ all)
