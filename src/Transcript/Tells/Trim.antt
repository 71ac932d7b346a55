-- ===== src/Transcript/Tells/Trim.antt =====
-- The end of a fold: `_trim` of bridge/deskhelm_client/transcript.py removes the oldest items, and stops
-- within the bounds or at one item.
use deskhelm.Prelude.{
  ◌≤◌, String, string_eq, false, [], ◌∷◌, length, ◌≡◌, ◌⊎◌, inl, inr, refl, sym, ap, subst, ◌∙◌,
  arith, Bool-cases, if-keeps,
}
use deskhelm.Dict.{Dict, lookup, remove}
use deskhelm.Dict.Every.{Every}
use deskhelm.Dict.Distinct.{Distinct, remove-first}
use deskhelm.Transcript.{Item, Patch, item_size}
use deskhelm.Transcript.Storage.{TranscriptState, size_of, over_bounds, pop_oldest, trim_loop, trim}
use deskhelm.Transcript.Surface.{patched, patched_all}
use deskhelm.Transcript.Tidy.{
  ItemFits, measured, weight, Named, Tidy, absent-measured, size_of-found, Told, Told-nothing,
  Told-then,
}

-- One item is left, or the items and their characters are within the bounds.
abbrev pub WithinBounds : TranscriptState → Type 0
WithinBounds s = (length s.items ≤ 1) ⊎ ((length s.items ≤ s.max_items) × (s.chars ≤ s.max_chars))

items-pop_oldest :
    (id : String) (rest : Dict String Item) (s : TranscriptState)
    → (pop_oldest id rest s).items ≡ rest
unfolding pop_oldest
items-pop_oldest id rest s = refl

not-over_bounds :
    (s : TranscriptState)
    → over_bounds s ≡ false
    → (length s.items ≤ s.max_items) × (s.chars ≤ s.max_chars)
unfolding over_bounds
not-over_bounds s h = (ground arith, ground arith)

trim_loop-WithinBounds :
    (d : Dict String Item) (s : TranscriptState) → s.items ≡ d → WithinBounds (trim_loop d s).0
unfolding trim_loop
trim_loop-WithinBounds [] s h = inl (subst (λ i. length i ≤ 1) (sym h) (omega arith))
trim_loop-WithinBounds (p ∷ []) s h = inl (subst (λ i. length i ≤ 1) (sym h) (omega arith))
trim_loop-WithinBounds (p ∷ q ∷ d) s h = elim (Bool-cases (over_bounds s)) [
  | inl over ↦
      rw over
        (trim_loop-WithinBounds (q ∷ d) (pop_oldest p.0 (q ∷ d) s) (items-pop_oldest p.0 (q ∷ d) s))
  | inr within ↦ rw within (inr (not-over_bounds s within))
]

pub trim-WithinBounds : (s : TranscriptState) → WithinBounds (trim s).0
unfolding trim
trim-WithinBounds s = trim_loop-WithinBounds s.items s refl

-- The oldest item goes with its size, and the surface is told.
pop_oldest-tells :
    (id : String) (item : Item) (rest : Dict String Item) (s : TranscriptState)
    → s.items ≡ ((id, item) ∷ rest)
    → Tidy s
    → Told s (pop_oldest id rest s, Patch.remove id ∷ [])
unfolding pop_oldest patched_all patched Distinct measured weight lookup
pop_oldest-tells id item rest s h tidy =
    let distinct = subst Distinct h tidy.distinct in
    let sizes = tidy.sizes_measured ∙ ap measured h in
    let absent = absent-measured id rest distinct.0 in
    let size =
      ap (size_of id) sizes
      ∙ size_of-found id ((id, item_size item) ∷ measured rest) (item_size item)
          (rw ((string_eq.beq_iff id id).1 refl) refl) in
    record {
      tidy = record {
        distinct = distinct.1;
        named = (subst Named h tidy.named).1;
        fit = (subst (Every ItemFits) h tidy.fit).1;
        sizes_measured =
            ap (remove id) sizes ∙ remove-first id (item_size item) (measured rest) absent;
        chars_counted = omega (arith, tidy.chars_counted ∙ ap weight h, size);
      };
      same_items = refl;
      same_chars = refl;
      later = omega arith;
      tells = ap (remove id) h ∙ remove-first id item rest distinct.0;
    }

trim_loop-tells :
    (d : Dict String Item) (s : TranscriptState) → s.items ≡ d → Tidy s → Told s (trim_loop d s)
unfolding trim_loop
trim_loop-tells [] s h tidy = Told-nothing s tidy
trim_loop-tells (p ∷ []) s h tidy = Told-nothing s tidy
trim_loop-tells ((id, item) ∷ q ∷ d) s h tidy =
    let first = pop_oldest-tells id item (q ∷ d) s h tidy in
    let popped = pop_oldest id (q ∷ d) s in
    if-keeps (Told s) (over_bounds s)
      (Told-then s (popped, Patch.remove id ∷ []) (trim_loop (q ∷ d) popped) first
        (trim_loop-tells (q ∷ d) popped (items-pop_oldest id (q ∷ d) s) first.tidy))
      (Told-nothing s tidy)

pub trim-tells : (s : TranscriptState) → Tidy s → Told s (trim s)
unfolding trim
trim-tells s tidy = trim_loop-tells s.items s refl tidy
