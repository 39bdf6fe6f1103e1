-- ===== src/Bundle/Previous.antt =====
-- The chunk ids of the last answer of each conversation (app/context/previous_chunks.py). Times are
-- numbers of some unit of `time.monotonic()`, passed in; `items` is in the order of the OrderedDict,
-- the oldest record first.
pub mod Bounded
use llm_service.Prelude.{
  ℕ, ◌-◌, String, Bool, ◌||◌, Option, none, some, List, [], ◌∷◌, ◌++◌, str_eq, if◌then◌else◌, ltb,
  length, ◌==◌, take, contains, Dict, lookup, erase,
}

pub record Entry : Type 0 where
  pub at : ℕ
  pub ids : List String

pub record Store : Type 0 where
  pub ttl_s : ℕ
  pub max_conversations : ℕ
  pub max_ids : ℕ
  pub items : Dict Entry

unfoldable pub init : ℕ → ℕ → ℕ → Store
init ttl_s max_conversations max_ids = record {
  ttl_s = ttl_s;
  max_conversations = max_conversations;
  max_ids = max_ids;
  items = [];
}

-- `list(dict.fromkeys(i for i in chunk_ids if i))`, after some ids
unfoldable pub unique_ids : List String → List String → List String
unique_ids seen [] = []
unique_ids seen (i ∷ is) =
    let same = unique_ids seen is in
    let more = unique_ids (i ∷ seen) is in if str_eq i "" || contains i seen then same else i ∷ more

unfoldable pub is_empty : List String → Bool
is_empty ids = length ids == 0

-- the oldest conversations go while there are too many
unfoldable pub evict : ℕ → Dict Entry → Dict Entry
evict most [] = []
evict most (item ∷ items) =
    let fewer = evict most items in if ltb most (length (item ∷ items)) then fewer else item ∷ items

-- the conversation moves to the end, where its new entry stands
unfoldable pub put : String → Entry → Store → Store
put conversation_id entry s = record s {
  items =
      evict s.max_conversations (erase conversation_id s.items ++ (conversation_id, entry) ∷ []);
}

-- `record`
unfoldable pub record_ids : String → List String → ℕ → Store → Store
record_ids conversation_id chunk_ids now s =
    let ids = take s.max_ids (unique_ids [] chunk_ids) in
    if str_eq conversation_id "" || is_empty ids
    then s
    else put conversation_id (record { at = now; ids = ids }) s

pub record Got : Type 0 where
  pub ids : List String
  pub store : Store

unfoldable pub got : String → ℕ → Store → Option Entry → Got
got conversation_id now s none = record { ids = []; store = s }
got conversation_id now s (some entry) =
    if ltb s.ttl_s (now - entry.at)
    then record { ids = []; store = record s { items = erase conversation_id s.items } }
    else record { ids = entry.ids; store = s }

unfoldable pub get : String → ℕ → Store → Got
get conversation_id now s = got conversation_id now s (lookup conversation_id s.items)
