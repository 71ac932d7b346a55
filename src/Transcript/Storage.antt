-- ===== src/Transcript/Storage.antt =====
-- The state of `Transcript` in bridge/deskhelm_client/transcript.py, and its storage methods. An
-- item that the source changes in place is stored again under its id.
use deskhelm.Prelude.{
  ℕ, ◌+◌, ◌-◌, String, string_eq, Bool, ◌||◌, List, [], ◌∷◌, none, some, length, ltb, if◌then◌else◌,
}
use deskhelm.Dict.{Dict, lookup, insert, remove}
use deskhelm.Json.{Object}
use deskhelm.Protocol.Fields.{get}
use deskhelm.Transcript.{Body, Field, Item, Patch, item_size}
use deskhelm.Transcript.Texts.{int_or_zero}

pub record TranscriptState : Type 0 where
  pub max_items : ℕ
  pub max_chars : ℕ
  pub items : Dict String Item
  pub sizes : Dict String ℕ
  pub chars : ℕ
  pub seq : ℕ
  pub last_sequence : ℕ

unfoldable pub new_transcript : ℕ → ℕ → TranscriptState
new_transcript max_items max_chars = record {
  max_items = max_items;
  max_chars = max_chars;
  items = [];
  sizes = [];
  chars = 0;
  seq = 0;
  last_sequence = 0;
}

-- A call's state and the patches that it returns.
abbrev pub Folded : Type 0
Folded = TranscriptState × List Patch

-- self._sizes.get(id, 0)
unfoldable pub size_of : String → Dict String ℕ → ℕ
unfolding lookup
size_of id sizes = elim (lookup id sizes) [ none ↦ 0 | some n ↦ n ]

unfoldable pub new_item : String → Body → Object → TranscriptState → Item
unfolding int_or_zero get
new_item id body event s = record {
  id = id;
  seq = s.seq + 1;
  at = int_or_zero (get event "occurred_at");
  body = body;
}

-- `_create`, for the item that `new_item` gives.
unfoldable pub create : Item → TranscriptState → TranscriptState
unfolding insert
create item s = record s {
  seq = s.seq + 1;
  items = insert item.id item s.items;
  sizes = insert item.id 0 s.sizes;
}

unfoldable pub store : Item → TranscriptState → TranscriptState
unfolding insert
store item s = record s { items = insert item.id item s.items }

-- `_account`. The size that goes is part of `chars`, so the subtraction does not stop at 0.
unfoldable pub account : Item → TranscriptState → TranscriptState
unfolding insert size_of item_size
account item s = record s {
  chars = s.chars + item_size item - size_of item.id s.sizes;
  sizes = insert item.id (item_size item) s.sizes;
}

-- `_upsert`
unfoldable pub upsert : Item → TranscriptState → Folded
unfolding store account
upsert item s = (account item (store item s), Patch.upsert item ∷ [])

-- `_append`
unfoldable pub append : Item → Field → String → ℕ → TranscriptState → Folded
unfolding store account
append item field chunk trim s =
    (account item (store item s), Patch.append item.id field chunk trim ∷ [])

-- The loop's test, for more than one item.
unfoldable pub over_bounds : TranscriptState → Bool
over_bounds s = ltb s.max_items (length s.items) || ltb s.max_chars s.chars

-- `popitem(last=False)`, where `rest` are the items after the oldest.
unfoldable pub pop_oldest : String → Dict String Item → TranscriptState → TranscriptState
unfolding remove size_of
pop_oldest id rest s = record s {
  items = rest;
  chars = s.chars - size_of id s.sizes;
  sizes = remove id s.sizes;
}

-- The loop of `_trim`; the first argument is the items of the state.
unfoldable pub trim_loop : Dict String Item → TranscriptState → Folded
unfolding over_bounds pop_oldest
trim_loop [] s = (s, [])
trim_loop (oldest ∷ []) s = (s, [])
trim_loop (oldest ∷ next ∷ rest) s =
    let more = trim_loop (next ∷ rest) (pop_oldest oldest.0 (next ∷ rest) s) in
    if over_bounds s then (more.0, Patch.remove oldest.0 ∷ more.1) else (s, [])

-- `_trim`
unfoldable pub trim : TranscriptState → Folded
unfolding trim_loop
trim s = trim_loop s.items s
