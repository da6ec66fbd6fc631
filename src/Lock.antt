-- ===== src/Lock.antt =====
-- contracts/defuse/core/src/lock.rs: a value with a persistent lock. A method that gives access to the
-- value through a reference returns the value; one that locks or unlocks returns the new lock, and
-- nothing where it leaves the lock as it was.
use intents.Prelude.{Bool, true, false, not, Option, none, some, if◌then◌else◌}

pub record Lock (A : Type 0) : Type 0 where
  pub locked : Bool
  pub value : A

module _ {A : Type 0} where
  abbrev pub unlocked : A → Lock A
  unlocked a = record { locked = false; value = a }

  abbrev pub get_mut : Lock A → Option A
  get_mut l = if l.locked then none else some l.value

  abbrev pub get_mut_maybe_forced : Lock A → Bool → Option A
  get_mut_maybe_forced l force = if force then some l.value else get_mut l

  abbrev pub lock : Lock A → Option (Lock A)
  lock l = if l.locked then none else some (record { locked = true; value = l.value })

  abbrev pub unlock : Lock A → Option (Lock A)
  unlock l = if not l.locked then none else some (record { locked = false; value = l.value })

  -- What a write through one of the references leaves.
  abbrev pub with_value : Lock A → A → Lock A
  with_value l a = record { locked = l.locked; value = a }
