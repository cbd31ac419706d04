-- ===== src/Storage/Memories.antt =====
-- core/domain/memory.py and infrastructure/storage/memory/in_memory.py. Confidence is counted in
-- thousandths. Times are those with a time zone, in microseconds; `datetime.min`, which stands for a
-- missing one when memories are sorted, has no time zone, and Python does not compare it with these.
-- A set of identifiers is a list without repetitions; copies are the values themselves.
pub mod Listed
mod Ordered
pub mod Sorted
pub mod Agents
use kitematic.Base.{
  codes, ℕ, String, str_eq, is_empty, lower, contains_codes, Bool, true, false, ◌&&◌, ◌||◌, not,
  Option, none, some, List, [], ◌∷◌, ◌++◌, any, select, length, ◌==◌, ltb, leb, get_or,
  if◌then◌else◌, Outcome, returned, raised,
}
use kitematic.Base.Dict.{Dict, lookup, insert, erase, values}
use kitematic.Storage.Checkpoints.{codes_le}
use kitematic.Storage.Indexed.{add_to_set, fetch_all, sort_ordered}

pub data MemoryType : Type 0 where
  fact preference summary experience document : MemoryType

abbrev pub same_memory_type : MemoryType → MemoryType → Bool
same_memory_type fact fact = true
same_memory_type preference preference = true
same_memory_type summary summary = true
same_memory_type experience experience = true
same_memory_type document document = true
same_memory_type _ _ = false

pub record MemoryItem : Type 0 where
  pub item_id : String
  pub tenant_id : String
  pub agent_instance_id : String
  pub memory_type : MemoryType
  pub content : String
  pub confidence : ℕ
  pub source : String
  pub created_at : Option ℕ
  pub expires_at : Option ℕ

unfoldable pub validate_memory : MemoryItem → List String
validate_memory m =
    (if is_empty m.item_id then "item_id is required" ∷ [] else [])
    ++ (if is_empty m.content then "content is required" ∷ [] else [])
    ++ (if leb m.confidence 1000 then [] else "confidence must be between 0.0 and 1.0" ∷ [])

unfoldable pub memory_is_valid : MemoryItem → Bool
unfolding validate_memory
memory_is_valid m = length (validate_memory m) == 0

abbrev pub expired_at : Option ℕ → (now : ℕ) → Bool
expired_at none now = false
expired_at (some t) now = ltb t now

unfoldable pub is_expired : (now : ℕ) → MemoryItem → Bool
is_expired now m = expired_at m.expires_at now

pub record MemoryStore : Type 0 where
  pub store : Dict MemoryItem
  pub agent_index : Dict (List String)

abbrev pub new_memories : MemoryStore
new_memories = record { store = []; agent_index = [] }

pub data MemoryError : Type 0 where
  -- the `KeyError` of an identifier in the index that names no memory
  key_error : String → MemoryError
  -- the `TypeError` of comparing a time that has a time zone with one that has none
  type_error : MemoryError

-- the order of the pairs of creation time and identifier, where both times are there or both missing
unfoldable pub earlier : Option ℕ → Option ℕ → (same_time : Bool) → Bool
earlier none none same_time = same_time
earlier (some t) (some u) same_time = ltb t u || (t == u && same_time)
earlier _ _ same_time = false

unfoldable pub created_before : MemoryItem → MemoryItem → Bool
unfolding earlier codes_le
created_before m n =
    earlier m.created_at n.created_at (codes_le (codes m.item_id) (codes n.item_id))

abbrev pub is_dated : MemoryItem → Bool
is_dated m = elim m.created_at [ none ↦ false | some t ↦ true ]

-- Some memory has a time of creation and some has none: every way of sorting compares two such.
unfoldable pub is_mixed : List MemoryItem → Bool
is_mixed ms = any is_dated ms && any (λ m. not (is_dated m)) ms

-- `_sorted`
unfoldable pub sort_memories : List MemoryItem → Outcome MemoryError (List MemoryItem)
unfolding sort_ordered created_before is_mixed
sort_memories ms =
    if is_mixed ms then raised type_error else returned (sort_ordered created_before ms)

unfoldable pub save_memory : MemoryItem → MemoryStore → MemoryItem × MemoryStore
save_memory m s = (
  m,
  record {
    store = insert m.item_id m s.store;
    agent_index =
        insert m.agent_instance_id
          (add_to_set m.item_id (get_or (lookup m.agent_instance_id s.agent_index) []))
          s.agent_index;
  },
)

abbrev pub if_current : (now : ℕ) → Option MemoryItem → Option MemoryItem
if_current now none = none
if_current now (some m) = if is_expired now m then none else some m

unfoldable pub get_memory : (now : ℕ) (memory_id : String) → MemoryStore → Option MemoryItem
unfolding is_expired
get_memory now memory_id s = if_current now (lookup memory_id s.store)

abbrev pub agent_matches : Option String → MemoryItem → Bool
agent_matches none m = true
agent_matches (some agent) m = str_eq m.agent_instance_id agent

abbrev pub type_matches : Option MemoryType → MemoryItem → Bool
type_matches none m = true
type_matches (some t) m = same_memory_type m.memory_type t

unfoldable pub is_hit :
    (now : ℕ) (query : String) (agent : Option String) (t : Option MemoryType) (min_confidence : ℕ)
    → MemoryItem
    → Bool
unfolding is_expired
is_hit now query agent t min_confidence m =
    not (is_expired now m)
    && agent_matches agent m
    && type_matches t m
    && leb min_confidence m.confidence
    && contains_codes (lower query) (lower m.content)

unfoldable pub search_memories :
    (now : ℕ) (query : String) (agent : Option String) (t : Option MemoryType) (min_confidence : ℕ)
    → MemoryStore
    → Outcome MemoryError (List MemoryItem)
unfolding is_hit sort_memories
search_memories now query agent t min_confidence s =
    sort_memories (select (is_hit now query agent t min_confidence) (values s.store))

abbrev pub current_of :
    (now : ℕ) → Outcome String (List MemoryItem) → Outcome MemoryError (List MemoryItem)
current_of now (raised missing) = raised (key_error missing)
current_of now (returned ms) = sort_memories (select (λ m. not (is_expired now m)) ms)

unfoldable pub memories_of : String → MemoryStore → List String
memories_of agent s = get_or (lookup agent s.agent_index) []

unfoldable pub list_by_agent :
    (now : ℕ) (agent : String) → MemoryStore → Outcome MemoryError (List MemoryItem)
unfolding memories_of fetch_all is_expired sort_memories
list_by_agent now agent s = current_of now (fetch_all (memories_of agent s) s.store)

-- the index without an identifier of an agent's; an agent without an entry gets none
unfoldable pub discarded :
    (agent memory_id : String) → Option (List String) → Dict (List String) → Dict (List String)
discarded agent memory_id none index = index
discarded agent memory_id (some ids) index =
    insert agent (select (λ id. not (str_eq id memory_id)) ids) index

unfoldable pub deleted : (memory_id : String) → Option MemoryItem → MemoryStore → MemoryStore
unfolding discarded
deleted memory_id none s = s
deleted memory_id (some m) s = record {
  store = erase memory_id s.store;
  agent_index =
      discarded m.agent_instance_id memory_id (lookup m.agent_instance_id s.agent_index)
        s.agent_index;
}

unfoldable pub delete_memory : (memory_id : String) → MemoryStore → MemoryStore
unfolding deleted
delete_memory memory_id s = deleted memory_id (lookup memory_id s.store) s
