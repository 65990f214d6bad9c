-- ===== src/Cdc.antt =====
-- src/cdc/change.rs: the events that tell a replica what an operation did to the nodes of a set.
use indexset.Base.{ℕ, ◌+◌, Bool, ◌==◌}

-- An event's id is a `u64`; `is_next_for` adds 1 to it, which does not wrap below the last id.
pub record EventId : Type 0 where
  pub inner : ℕ

abbrev pub is_next_for : EventId → EventId → Bool
is_next_for id other = id.inner == other.inner + 1

pub data ChangeEvent {ℓ} (T : Type ℓ) : Type ℓ where
  insert_at : EventId → (max_value value : T) (index : ℕ) → ChangeEvent T
  remove_at : EventId → (max_value value : T) (index : ℕ) → ChangeEvent T
  create_node : EventId → (max_value : T) → ChangeEvent T
  remove_node : EventId → (max_value : T) → ChangeEvent T
  split_node : EventId → (max_value : T) (split_index : ℕ) → ChangeEvent T

pub data ChangeEventUnassigned {ℓ} (T : Type ℓ) : Type ℓ where
  insert_at : (max_value value : T) (index : ℕ) → ChangeEventUnassigned T
  remove_at : (max_value value : T) (index : ℕ) → ChangeEventUnassigned T
  create_node : (max_value : T) → ChangeEventUnassigned T
  remove_node : (max_value : T) → ChangeEventUnassigned T
  split_node : (max_value : T) (split_index : ℕ) → ChangeEventUnassigned T

module _ {ℓ} {T : Type ℓ} where
  abbrev pub id : ChangeEvent T → EventId
  id (insert_at event_id max_value value index) = event_id
  id (remove_at event_id max_value value index) = event_id
  id (create_node event_id max_value) = event_id
  id (remove_node event_id max_value) = event_id
  id (split_node event_id max_value split_index) = event_id

  abbrev pub assign_id : ChangeEventUnassigned T → EventId → ChangeEvent T
  assign_id (insert_at max_value value index) event_id = insert_at event_id max_value value index
  assign_id (remove_at max_value value index) event_id = remove_at event_id max_value value index
  assign_id (create_node max_value) event_id = create_node event_id max_value
  assign_id (remove_node max_value) event_id = remove_node event_id max_value
  assign_id (split_node max_value split_index) event_id = split_node event_id max_value split_index

module _ {ℓ κ} {M : Type ℓ} {P : Type κ} where
  -- `into` is the conversion of a multi-pair into a pair
  abbrev pub multipair_change_event_into_pair : (M → P) → ChangeEvent M → ChangeEvent P
  multipair_change_event_into_pair into (insert_at event_id max_value value index) =
      insert_at event_id (into max_value) (into value) index
  multipair_change_event_into_pair into (remove_at event_id max_value value index) =
      remove_at event_id (into max_value) (into value) index
  multipair_change_event_into_pair into (create_node event_id max_value) =
      create_node event_id (into max_value)
  multipair_change_event_into_pair into (remove_node event_id max_value) =
      remove_node event_id (into max_value)
  multipair_change_event_into_pair into (split_node event_id max_value split_index) =
      split_node event_id (into max_value) split_index
