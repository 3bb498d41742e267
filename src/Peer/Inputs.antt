-- ===== src/Peer/Inputs.antt =====
-- The inputs of entities: CelteInputSystem (system/include/CelteInputSystem.hpp,
-- system/common_src/CelteInputSystem.cpp) and the readers and the upload of ETTRegistry
-- (system/include/ETTRegistry.hpp, system/common_src/ETTRegistry.cpp). A coordinate is a float that
-- is only handed on, here the number of its bits; the clock's reading is an argument.
pub mod Laws
use celte_system.Prelude.{
  ℕ, zero, suc, ◌+◌, ◌-◌, ◌≤◌, ◌<◌, ◌≡◌, refl, sym, ap, ◌∙◌, subst, Bool, true, false, String, List,
  [], ◌∷◌, ◌++◌, Option, none, some, length, length-append, if◌then◌else◌, ◌==◌, eq_iff, ltb, arith,
  Option-cases, Bool-cases, inl, inr, value_or,
}
use mathlib.Core.List.{append_assoc}
use celte_system.Prelude.Assoc
use celte_system.Prelude.Assoc.{Assoc, find-put}
use celte_system.Prelude.HashMap.{HashMap, Map, find, put, find-put as find-put_map}
use celte_system.Topics

pub record DataInput : Type 0 where
  pub status : Bool
  pub timestamp : ℕ
  pub x : ℕ
  pub y : ℕ

-- boost::circular_buffer: its elements from the oldest to the newest, and push_back, which drops the
-- oldest element of a full buffer.
pub record CircularBuffer (A : Type 0) : Type 1 where
  pub Buffer : Type 0
  pub make : ℕ → Buffer
  pub capacity : Buffer → ℕ
  pub items : Buffer → List A
  pub push_back : Buffer → A → Buffer
  pub capacity-make : (n : ℕ) → capacity (make n) ≡ n
  pub items-make : (n : ℕ) → items (make n) ≡ []
  pub capacity-push_back : (b : Buffer) (a : A) → capacity (push_back b a) ≡ capacity b
  pub items-push_back_free :
      (b : Buffer) (a : A)
      → length (items b) < capacity b
      → items (push_back b a) ≡ items b ++ (a ∷ [])
  pub items-push_back_full :
      (b : Buffer) (a oldest : A) (others : List A)
      → items b ≡ oldest ∷ others
      → length (items b) ≡ capacity b
      → items (push_back b a) ≡ others ++ (a ∷ [])

abbrev pub drop {ℓ} : {A : Type ℓ} → ℕ → List A → List A
drop zero xs = xs
drop (suc n) [] = []
drop (suc n) (x ∷ xs) = drop n xs

-- The newest `n` of a history.
abbrev pub newest {ℓ} : {A : Type ℓ} → ℕ → List A → List A
newest n xs = drop (length xs - n) xs

abbrev get_at {ℓ} : {A : Type ℓ} → List A → ℕ → Option A
get_at [] n = none
get_at (x ∷ xs) zero = some x
get_at (x ∷ xs) (suc n) = get_at xs n

module _ ⦃h : HashMap⦄ ⦃ring : CircularBuffer DataInput⦄ where
  -- The inputs of one entity, by name.
  abbrev pub Inputs : Type 0
  Inputs = Assoc ring.Buffer

  -- What HandleInput does under the lock of the entity.
  unfoldable pub push_input : Inputs → String → DataInput → Inputs
  push_input inputs name input = elim (Assoc.find inputs name) [
    | none ↦ Assoc.put inputs name (ring.push_back (ring.make 10) input)
    | some buffer ↦ Assoc.put inputs name (ring.push_back buffer input)
  ]

  -- CelteInputSystem::HandleInput on the inputs of the registered entities.
  unfoldable pub handle_input :
      Map Inputs → (uuid input_name : String) (status : Bool) (now : ℕ) (x y : ℕ) → Map Inputs
  handle_input entities uuid input_name status now x y = elim (find entities uuid) [
    | none ↦ entities
    | some inputs ↦
        put entities uuid
          (push_input inputs input_name (record { status = status; timestamp = now; x = x; y = y }))
  ]

  unfoldable get_entity_inputs : Map Inputs → String → Option Inputs
  get_entity_inputs entities id = find entities id

  unfoldable pub get_entity_circular_buf : Map Inputs → String → String → Option ring.Buffer
  get_entity_circular_buf entities id input_name = elim (find entities id) [
    | none ↦ none
    | some inputs ↦ Assoc.find inputs input_name
  ]

  -- `index` is negative where it is none.
  unfoldable get_specific_input : Map Inputs → String → String → Option ℕ → Option DataInput
  get_specific_input entities id input_name none = none
  get_specific_input entities id input_name (some index) =
      elim (get_entity_circular_buf entities id input_name) [
        | none ↦ none
        | some buffer ↦
            if ltb index (length (ring.items buffer))
            then get_at (ring.items buffer) index
            else none
      ]

  -- What is kept of a name of an entity, from the oldest to the newest input.
  unfoldable pub kept : Map Inputs → String → String → List DataInput
  kept entities id name = elim (get_entity_circular_buf entities id name) [
    | none ↦ []
    | some buffer ↦ ring.items buffer
  ]

  unfoldable pub handle_inputs : Map Inputs → String → String → List DataInput → Map Inputs
  handle_inputs entities uuid name [] = entities
  handle_inputs entities uuid name (i ∷ is) =
      handle_inputs (handle_input entities uuid name i.status i.timestamp i.x i.y) uuid name is

-- ETTRegistry::UploadInputData up to the write: the topic, or nothing for an entity that no
-- container owns.
unfoldable upload_topic : (default_scope owner_container_id : String) → Option String
upload_topic default_scope owner_container_id =
    if owner_container_id == "" then none else some (Topics.input default_scope owner_container_id)
