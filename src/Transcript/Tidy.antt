-- ===== src/Transcript/Tidy.antt =====
-- What holds of every state of the transcript of bridge/deskhelm_client/transcript.py, and the rules
-- by which its storage methods keep it while their patches tell a surface what they changed.
use Prim.Native.String.{count}
use deskhelm.Prelude.{
  ℕ, ◌+◌, ◌-◌, ◌≤◌, String, string_eq, [], ◌∷◌, ◌++◌, none, some, ◌≡◌, ◌≢◌, refl, sym, ap, ◌∙◌,
  subst, arith, inl, inr, Bool-cases, ◌==◌, if◌then◌else◌,
}
use deskhelm.Dict.{Dict, lookup, insert}
use deskhelm.Dict.Laws.{lookup-insert_self}
use deskhelm.Dict.Every.{Every, Every-insert}
use deskhelm.Dict.Distinct.{Distinct, Distinct-insert, insert-over, insert-same, modify-insert}
use deskhelm.Transcript.{Body, Field, Item, item_size, max_message_chars, max_output_chars}
use deskhelm.Transcript.Storage.{
  TranscriptState, Folded, size_of, create, store, account, upsert, append,
}
use deskhelm.Transcript.Surface.{extended_item, patched, patched_all, patched_all-append}

-- The bounds on a text that grows; a tool has a label of its own.
abbrev pub BodyFits : Body → Type 0
BodyFits (Body.message m) = count m.text ≤ max_message_chars
BodyFits (Body.tool t) = (t.kind ≢ "tool") × (count t.output ≤ max_output_chars)
BodyFits _ = Unit

abbrev pub ItemFits : Item → Type 0
ItemFits item = BodyFits item.body

-- The sizes of the items, under their keys.
unfoldable pub measured : Dict String Item → Dict String ℕ
measured [] = []
measured ((id, item) ∷ rest) = (id, item_size item) ∷ measured rest

-- The sum of the sizes of the items.
unfoldable pub weight : Dict String Item → ℕ
weight [] = 0
weight ((id, item) ∷ rest) = item_size item + weight rest

-- Every item stands under its own id.
abbrev pub Named : Dict String Item → Type 0
Named [] = Unit
Named ((id, item) ∷ rest) = (item.id ≡ id) × Named rest

pub record Tidy (s : TranscriptState) : Type 0 where
  pub distinct : Distinct s.items
  pub named : Named s.items
  pub fit : Every ItemFits s.items
  pub sizes_measured : s.sizes ≡ measured s.items
  pub chars_counted : s.chars ≡ weight s.items

Named-insert : (item : Item) (d : Dict String Item) → Named d → Named (insert item.id item d)
unfolding insert
Named-insert item [] h = (refl, tt)
Named-insert item ((j, w) ∷ d) h = elim (Bool-cases (j == item.id)) [
  | inl here ↦ rw here (sym ((string_eq.beq_iff j item.id).0 here), h.1)
  | inr there ↦ rw there (h.0, Named-insert item d h.1)
]

pub Named-lookup :
    (id : String) (d : Dict String Item) {item : Item}
    → Named d
    → lookup id d ≡ some item
    → item.id ≡ id
unfolding lookup
Named-lookup id [] h q = cc
Named-lookup id ((j, w) ∷ d) {item} h q = elim (Bool-cases (j == id)) [
  | inl here ↦ cc (h.0, (string_eq.beq_iff j id).0 here, (rw here at q))
  | inr there ↦ Named-lookup id d h.1 (rw there at q)
]

measured-insert :
    (id : String) (item : Item) (d : Dict String Item)
    → measured (insert id item d) ≡ insert id (item_size item) (measured d)
unfolding insert measured
measured-insert id item [] = refl
measured-insert id item ((j, w) ∷ d) = elim (Bool-cases (j == id)) [
  | inl here ↦ rw here refl
  | inr there ↦ rw there (ap (◌∷◌ (j, item_size w)) (measured-insert id item d))
]

size_of-cons :
    (k j : String) (n : ℕ) (d : Dict String ℕ)
    → size_of k ((j, n) ∷ d) ≡ (if j == k then n else size_of k d)
unfolding size_of lookup
size_of-cons k j n d = ground arith

-- Storing an item takes its old size away and adds the new one.
weight-insert :
    (id : String) (item : Item) (d : Dict String Item)
    → weight (insert id item d) + size_of id (measured d) ≡ weight d + item_size item
unfolding insert measured weight size_of lookup
weight-insert id item [] = omega arith
weight-insert id item ((j, w) ∷ d) = elim (Bool-cases (j == id)) [
  | inl here ↦ rw (size_of-cons id j (item_size w) (measured d), here) (omega arith)
  | inr there ↦
      rw (size_of-cons id j (item_size w) (measured d), there)
        (omega (arith, weight-insert id item d))
]

pub absent-measured :
    (k : String) (d : Dict String Item) → lookup k d ≡ none → lookup k (measured d) ≡ none
unfolding measured lookup
absent-measured k [] h = refl
absent-measured k ((j, w) ∷ d) h = elim (Bool-cases (j == k)) [
  | inl here ↦ cc (rw here at h)
  | inr there ↦ rw there (absent-measured k d (rw there at h))
]

pub size_of-found : (k : String) (d : Dict String ℕ) (n : ℕ) → lookup k d ≡ some n → size_of k d ≡ n
unfolding size_of
size_of-found k d n h = rw (h, size_of) refl

size_of-absent : (k : String) (d : Dict String ℕ) → lookup k d ≡ none → size_of k d ≡ 0
unfolding size_of
size_of-absent k d h = rw (h, size_of) refl

-- An item that has only just been created counts nothing yet.
size_of-created :
    (k : String) (d : Dict String Item) (sizes : Dict String ℕ)
    → lookup k d ≡ none
    → sizes ≡ measured d
    → size_of k (insert k 0 sizes) ≡ size_of k sizes
size_of-created k d sizes absent equal =
    size_of-found k (insert k 0 sizes) 0 (lookup-insert_self k 0 sizes)
    ∙ sym (size_of-absent k sizes (ap (lookup k) equal ∙ absent-measured k d absent))

Tidy-upsert : (item : Item) (s : TranscriptState) → ItemFits item → Tidy s → Tidy (upsert item s).0
unfolding upsert store account
Tidy-upsert item s fits h = record {
  distinct = Distinct-insert item.id item s.items h.distinct;
  named = Named-insert item s.items h.named;
  fit = Every-insert ItemFits item.id item s.items fits h.fit;
  sizes_measured =
      ap (insert item.id (item_size item)) h.sizes_measured
      ∙ sym (measured-insert item.id item s.items);
  chars_counted =
      rw h.sizes_measured (omega (arith, h.chars_counted, weight-insert item.id item s.items));
}

-- A call that left the state tidy, whose patches bring a surface's copy from the items before it to
-- the items after it, and that changed no bound and forgot no sequence.
pub record Told (s : TranscriptState) (folded : Folded) : Type 0 where
  pub tidy : Tidy folded.0
  pub same_items : folded.0.max_items ≡ s.max_items
  pub same_chars : folded.0.max_chars ≡ s.max_chars
  pub later : s.last_sequence ≤ folded.0.last_sequence
  pub tells : patched_all folded.1 s.items ≡ folded.0.items

pub Told-nothing : (s : TranscriptState) → Tidy s → Told s (s, [])
unfolding patched_all
Told-nothing s h = record {
  tidy = h;
  same_items = refl;
  same_chars = refl;
  later = omega arith;
  tells = refl;
}

pub Told-upsert :
    (item : Item) (s : TranscriptState) → ItemFits item → Tidy s → Told s (upsert item s)
unfolding upsert store account patched_all patched
Told-upsert item s fits h = record {
  tidy = Tidy-upsert item s fits h;
  same_items = refl;
  same_chars = refl;
  later = omega arith;
  tells = refl;
}

-- A created item takes its place with the first upsert of it.
pub Told-create :
    (item first : Item) (s : TranscriptState)
    → item.id ≡ first.id
    → lookup first.id s.items ≡ none
    → ItemFits item
    → Tidy s
    → Told s (upsert item (create first s))
unfolding upsert create store account patched_all patched
Told-create item first s same absent fits h =
    let base = Tidy-upsert item s fits h in
    let items_same = insert-over item.id first.id first item s.items same in
    let sizes_same = insert-over item.id first.id 0 (item_size item) s.sizes same in
    let size_same =
      subst (λ id. size_of id (insert first.id 0 s.sizes) ≡ size_of id s.sizes) (sym same)
        (size_of-created first.id s.items s.sizes absent h.sizes_measured) in
    record {
      tidy = record {
        distinct = subst Distinct (sym items_same) base.distinct;
        named = subst Named (sym items_same) base.named;
        fit = subst (Every ItemFits) (sym items_same) base.fit;
        sizes_measured = sizes_same ∙ base.sizes_measured ∙ ap measured (sym items_same);
        chars_counted =
            ap (λ n. s.chars + item_size item - n) size_same
            ∙ base.chars_counted
            ∙ ap weight (sym items_same);
      };
      same_items = refl;
      same_chars = refl;
      later = omega arith;
      tells = sym items_same;
    }

-- A longer text goes out as what was added to the item that the surface has.
pub Told-append :
    (item found : Item) (field : Field) (chunk : String) (trim : ℕ) (s : TranscriptState)
    → lookup item.id s.items ≡ some found
    → extended_item field chunk trim found ≡ item
    → ItemFits item
    → Tidy s
    → Told s (append item field chunk trim s)
unfolding upsert append store account patched_all patched
Told-append item found field chunk trim s here same fits h = record {
  tidy = Tidy-upsert item s fits h;
  same_items = refl;
  same_chars = refl;
  later = omega arith;
  tells =
      modify-insert item.id (extended_item field chunk trim) found s.items here
      ∙ ap (λ i. insert item.id i s.items) same;
}

-- Storing an item as it is changes nothing.
pub Told-same :
    (item : Item) (s : TranscriptState)
    → lookup item.id s.items ≡ some item
    → Tidy s
    → Told s (store item s, [])
unfolding store patched_all
Told-same item s here h =
    let same = insert-same item.id item s.items here in
    record {
      tidy = record {
        distinct = subst Distinct (sym same) h.distinct;
        named = subst Named (sym same) h.named;
        fit = subst (Every ItemFits) (sym same) h.fit;
        sizes_measured = h.sizes_measured ∙ ap measured (sym same);
        chars_counted = h.chars_counted ∙ ap weight (sym same);
      };
      same_items = refl;
      same_chars = refl;
      later = omega arith;
      tells = sym same;
    }

-- One call after another, as a surface hears both.
pub Told-then :
    (s : TranscriptState) (f g : Folded) → Told s f → Told f.0 g → Told s (g.0, f.1 ++ g.1)
Told-then s f g first second = record {
  tidy = second.tidy;
  same_items = second.same_items ∙ first.same_items;
  same_chars = second.same_chars ∙ first.same_chars;
  later = omega (arith, first.later, second.later);
  tells = patched_all-append f.1 g.1 s.items ∙ ap (patched_all g.1) first.tells ∙ second.tells;
}

-- The sequence that is folded is set first.
pub Told-sequence :
    (n : ℕ) (s : TranscriptState) (f : Folded)
    → s.last_sequence ≤ n
    → Told (record s { last_sequence = n }) f
    → Told s f
Told-sequence n s f le told = record {
  tidy = told.tidy;
  same_items = told.same_items;
  same_chars = told.same_chars;
  later = omega (arith, le, told.later);
  tells = told.tells;
}
