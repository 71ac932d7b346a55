-- ===== src/Core/Invariant/Resume.antt =====
-- A client that comes back to the console: `_subscribe_console` of bridge/deskhelm_core/core.py.
use deskhelm.Prelude.{
  ℕ, ◌+◌, ◌-◌, ◌++◌, sym, ◌∙◌, ap, none, true, ◌≤◌, ◌≡◌, refl, arith, String, string_eq, ◌&&◌, List,
  [], ◌∷◌, some, map, length, leb, inl, inr, Bool-cases, Option-cases,
}
use deskhelm.Json.{Json, Object, Members, pos, members}
use deskhelm.Protocol.Fields.{get}
use deskhelm.Core.Frames.{Change, Frame, send}
use deskhelm.Core.State.{Config, Core, Connection, init}
use deskhelm.Core.Actions.{send_all, send_to}
use deskhelm.Core.Clients.{
  oldest_seq, resume_at, resume_from, is_text, delta_outputs, console_snapshot, subscribe_console,
}
use deskhelm.Core.Machine.{Input, run}
use deskhelm.Core.Deltas.{IsRun, Rest, select-Rest, select-suffix}
use deskhelm.Core.Invariant.{Fits}
use deskhelm.Core.Invariant.Inputs.{run-init-Fits}

some-injective : (m n : ℕ) → some m ≡ some n → m ≡ n
some-injective m n h = cc

resume_at-bounds :
    (c : Core) (v : Json) (seq : ℕ)
    → resume_at c v ≡ some seq
    → (oldest_seq c - 1 ≤ seq) × (seq ≤ c.console_seq)
unfolding resume_at
resume_at-bounds c (Json.int (pos n)) seq h =
    elim (Bool-cases (leb (oldest_seq c - 1) n && leb n c.console_seq)) [
      | inr outside ↦ cc (rw (resume_at, outside) at h)
      | inl inside ↦
          let same = some-injective n seq (rw (resume_at, inside) at h) in rw⁻¹ same (ground arith)
    ]
resume_at-bounds c v seq h = cc

-- How far the kept deltas reach back.
oldest_seq-reach :
    (c : Core) (deltas : List (ℕ × List Change))
    → c.deltas ≡ deltas
    → IsRun c.console_seq deltas
    → c.console_seq ≤ (oldest_seq c - 1) + length deltas
unfolding oldest_seq
oldest_seq-reach c [] e h = rw (oldest_seq, e) (omega arith)
oldest_seq-reach c (d ∷ ds) e h = rw (oldest_seq, e) (omega (arith, h.0))

-- The frame names a number of this Bridge, and every delta after it is still kept.
pub record Names (c : Core) (frame : Object) (seq : ℕ) : Type 0 where
  pub after : Members
  pub of_object : get frame "after" ≡ Json.obj after
  pub of_bridge : get (members after) "instance_id" ≡ Json.str c.instance_id
  pub of_number : get (members after) "seq" ≡ Json.int (pos seq)
  pub not_ahead : seq ≤ c.console_seq
  pub kept : c.console_seq ≤ seq + length c.deltas

-- What a subscriber of the console gets: the deltas after the one that its frame names, which are the
-- end of those that are kept, or else a snapshot.
pub data Catches (c : Core) (frame : Object) (id : String) : Core → Type 0 where
  deltas :
      (seq : ℕ) (before ds : List (ℕ × List Change))
      → Names c frame seq
      → Rest seq c.console_seq ds
      → c.deltas ≡ before ++ ds
      → Catches c frame id (send_all (map (λ d. send id (Frame.delta c.instance_id d.0 d.1)) ds) c)
  snapshot :
      ((seq : ℕ) → Names c frame seq → ⊥)
      → Catches c frame id (send_to (some id) (console_snapshot c) c)

in_reach :
    (c : Core) (seq : ℕ) (deltas : List (ℕ × List Change))
    → c.deltas ≡ deltas
    → IsRun c.console_seq deltas
    → c.console_seq ≤ seq + length deltas
    → oldest_seq c - 1 ≤ seq
unfolding oldest_seq
in_reach c seq [] e h k = rw (oldest_seq, e) (omega (arith, k))
in_reach c seq (d ∷ ds) e h k = rw (oldest_seq, e) (omega (arith, h.0, k))

inside : (low seq high : ℕ) → low ≤ seq → seq ≤ high → (leb low seq && leb seq high) ≡ true
inside low seq high h k = ground arith

Names-resume_from :
    (c : Core) (frame : Object) (seq : ℕ)
    → Fits c
    → Names c frame seq
    → resume_from c (get frame "after") ≡ some seq
unfolding resume_from resume_at is_text
Names-resume_from c frame seq h named =
    rw
      (
        named.of_object,
        named.of_bridge,
        (string_eq.beq_iff c.instance_id c.instance_id).1 refl,
        named.of_number,
        inside (oldest_seq c - 1) seq c.console_seq
            (in_reach c seq c.deltas refl h.deltas_run named.kept) named.not_ahead,
      )
      refl

resume_at-Names :
    (c : Core) (v : Json) (seq : ℕ) → resume_at c v ≡ some seq → v ≡ Json.int (pos seq)
unfolding resume_at
resume_at-Names c (Json.int (pos n)) seq h =
    elim (Bool-cases (leb (oldest_seq c - 1) n && leb n c.console_seq)) [
      | inr outside ↦ cc (rw (resume_at, outside) at h)
      | inl inside ↦ ap (λ n. Json.int (pos n)) (some-injective n seq (rw (resume_at, inside) at h))
    ]
resume_at-Names c v seq h = cc

is_text-ok : (v : Json) (s : String) → is_text v s ≡ true → v ≡ Json.str s
unfolding is_text
is_text-ok (Json.str t) s h = ap Json.str ((string_eq.beq_iff t s).0 h)
is_text-ok v s h = cc

resume_from-Names :
    (c : Core) (frame : Object) (after : Json) (seq : ℕ)
    → Fits c
    → get frame "after" ≡ after
    → resume_from c after ≡ some seq
    → Names c frame seq
unfolding resume_from
resume_from-Names c frame (Json.obj ms) seq fits q h =
    elim (Bool-cases (is_text (get (members ms) "instance_id") c.instance_id)) [
      | inr other ↦ cc (rw (resume_from, other) at h)
      | inl ours ↦
          let at = rw (resume_from, ours) at h in
          let (low, high) = resume_at-bounds c _ seq at in
          let reach = oldest_seq-reach c c.deltas refl fits.deltas_run in
          record {
            after = ms;
            of_object = q;
            of_bridge = is_text-ok _ _ ours;
            of_number = resume_at-Names c _ seq at;
            not_ahead = high;
            kept = omega (arith, low, reach);
          }
    ]
resume_from-Names c frame after seq fits q h = cc

subscribes :
    (c : Core)
    → Fits c
    → (state : Connection) (frame : Object)
    → Catches c frame state.connection_id (subscribe_console state frame c)
unfolding subscribe_console delta_outputs
subscribes c h state frame = elim (Option-cases (resume_from c (get frame "after"))) [
  | inl none_named ↦
      rw (subscribe_console, none_named)
        (Catches.snapshot
          (λ seq named. nothing seq (sym none_named ∙ Names-resume_from c frame seq h named)))
  | inr (seq, named) ↦
      let names = resume_from-Names c frame _ seq h refl named in
      let (before, split) = select-suffix seq c.console_seq c.deltas h.deltas_run in
      rw (subscribe_console, named)
        (Catches.deltas seq before _ names
          (select-Rest seq c.console_seq c.deltas h.deltas_run (omega (arith, names.kept))
            names.not_ahead)
          split)
]
  where
    nothing : (seq : ℕ) → none ≡ some seq → ⊥
    nothing seq q = cc

-- Whatever happened before, a client that subscribes to the console gets exactly the deltas after the
-- number that its frame names, where that is a number of this Bridge, is not ahead of it, and no
-- delta after it has been dropped: one for each number up to the newest, in order, with none missing,
-- as the Bridge keeps them. In every other case it gets a snapshot.
pub subscribe_console-Catches :
    (config : Config) (inputs : List Input) (state : Connection) (frame : Object)
    → Catches
        (run inputs (init config))
        frame
        state.connection_id
        (subscribe_console state frame (run inputs (init config)))
unfolding subscribe_console
subscribe_console-Catches config inputs state frame =
    subscribes (run inputs (init config)) (run-init-Fits config inputs) state frame
