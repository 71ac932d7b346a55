-- ===== src/Core/Invariant/Names.antt =====
-- The tickets of a session of bridge/deskhelm_core/core.py stand under their own ids.
use deskhelm.Prelude.{
  ◌≡◌, refl, String, string_eq, [], ◌∷◌, some, inl, inr, Bool-cases, ◌==◌, sym, ◌∙◌,
}
use deskhelm.Dict.{Dict, lookup, insert, remove, modify}
use deskhelm.Core.State.{Ticket}
use deskhelm.Core.Invariant.{Named}

pub Named-insert :
    (t : Ticket) (ts : Dict String Ticket) → Named ts → Named (insert t.approval_id t ts)
unfolding insert
Named-insert t [] h = (refl, tt)
Named-insert t ((id, u) ∷ ts) h = elim (Bool-cases (id == t.approval_id)) [
  | inl here ↦ rw here (sym ((string_eq.beq_iff id t.approval_id).0 here), h.1)
  | inr there ↦ rw there (h.0, Named-insert t ts h.1)
]

pub Named-remove : (id : String) (ts : Dict String Ticket) → Named ts → Named (remove id ts)
unfolding remove
Named-remove id [] h = tt
Named-remove id ((j, u) ∷ ts) h = elim (Bool-cases (j == id)) [
  | inl here ↦ rw here (Named-remove id ts h.1)
  | inr there ↦ rw there (h.0, Named-remove id ts h.1)
]

pub Named-modify :
    (id : String) (f : Ticket → Ticket) (ts : Dict String Ticket)
    → ((t : Ticket) → (f t).approval_id ≡ t.approval_id)
    → Named ts
    → Named (modify id f ts)
unfolding modify
Named-modify id f [] same h = tt
Named-modify id f ((j, u) ∷ ts) same h = elim (Bool-cases (j == id)) [
  | inl here ↦ rw here (same u ∙ h.0, h.1)
  | inr there ↦ rw there (h.0, Named-modify id f ts same h.1)
]

pub Named-lookup :
    (id : String) (t : Ticket) (ts : Dict String Ticket)
    → Named ts
    → lookup id ts ≡ some t
    → t.approval_id ≡ id
unfolding lookup
Named-lookup id t [] h q = cc
Named-lookup id t ((j, u) ∷ ts) h q = elim (Bool-cases (j == id)) [
  | inl here ↦
      let same = found u t (rw here at q) in rw⁻¹ same (h.0 ∙ (string_eq.beq_iff j id).0 here)
  | inr there ↦ Named-lookup id t ts h.1 (rw there at q)
]
  where
    found : (u t : Ticket) → some u ≡ some t → u ≡ t
    found u t e = cc
