-- ===== src/Tests/Reads.antt =====
-- One read that waits for both slots and gets them.
use precis_mcp.Common.{Text, codes, text_eq, string_eq, nat_eq, ℕ, ◌+◌, ◌≡◌, refl, some, [], ◌∷◌}
use precis_mcp.Concurrency.{
  Phase, waits_user, waits_global, holds, Limiter, enters, granted, taken, grant, change_at, move,
  fresh, Reachable, begins, moves,
}
use precis_mcp.Concurrency.Slots.{Reachable-slots, user_slots, global_slots}

abbrev ann : Text
ann = codes "ann"

abbrev with_task : (Text → ℕ) → ℕ → Phase → Limiter
with_task f g p = record {
  free_user = f;
  free_global = g;
  tasks = (record { user = ann; phase = p }) ∷ [];
}

abbrev six : Text → ℕ
six u = 6

abbrev waiting : Limiter
waiting = with_task six 32 waits_user

abbrev half : Limiter
half = with_task (taken ann six) 32 waits_global

abbrev reading : Limiter
reading = with_task (taken ann six) 31 holds

enter : move (enters ann) (fresh 6 32) ≡ some waiting
unfolding move
enter = refl

first_grant : move (granted 0) waiting ≡ some half
unfolding move change_at grant
first_grant = refl

second_grant : move (granted 0) half ≡ some reading
unfolding move change_at grant
second_grant = refl

reached : Reachable 6 32 reading
reached =
    moves half reading (granted 0)
      (moves waiting half (granted 0) (moves (fresh 6 32) waiting (enters ann) begins enter)
        first_grant)
      second_grant

Reachable-slots_example :
    ((v : Text) → reading.free_user v + user_slots v reading.tasks ≡ 6)
    × (reading.free_global + global_slots reading.tasks ≡ 32)
Reachable-slots_example = Reachable-slots 6 32 reading reached
