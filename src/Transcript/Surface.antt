-- ===== src/Transcript/Surface.antt =====
-- What a surface makes of the patches of bridge/deskhelm_client/transcript.py, by the list at the
-- top of that file.
use Prim.Native.String.{◌++◌ as join}
use deskhelm.Prelude.{ℕ, String, string_eq, List, [], ◌∷◌, ◌++◌, ◌≡◌, refl}
use deskhelm.Dict.{Dict, insert, modify, remove}
use deskhelm.Transcript.{Body, Field, Item, Patch}
use deskhelm.Transcript.Texts.{drop_chars}

-- The first characters of the field go, then the text comes after the rest.
unfoldable pub extended : Field → String → ℕ → Body → Body
unfolding drop_chars
extended Field.text chunk trim (Body.message m) =
    Body.message (record m { text = join (drop_chars trim m.text) chunk })
extended Field.output chunk trim (Body.tool t) =
    Body.tool (record t { output = join (drop_chars trim t.output) chunk })
extended field chunk trim body = body

abbrev pub extended_item : Field → String → ℕ → Item → Item
extended_item field chunk trim item = record item { body = extended field chunk trim item.body }

unfoldable pub patched : Patch → Dict String Item → Dict String Item
unfolding insert modify remove extended
patched (Patch.upsert item) shown = insert item.id item shown
patched (Patch.append id field chunk trim) shown = modify id (extended_item field chunk trim) shown
patched (Patch.remove id) shown = remove id shown

unfoldable pub patched_all : List Patch → Dict String Item → Dict String Item
unfolding patched
patched_all [] shown = shown
patched_all (p ∷ ps) shown = patched_all ps (patched p shown)

pub patched_all-append :
    (ps qs : List Patch) (shown : Dict String Item)
    → patched_all (ps ++ qs) shown ≡ patched_all qs (patched_all ps shown)
unfolding patched_all
patched_all-append [] qs shown = refl
patched_all-append (p ∷ ps) qs shown = patched_all-append ps qs (patched p shown)
